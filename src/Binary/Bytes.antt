-- ===== src/Binary/Bytes.antt =====
-- The primitives of the format: little-endian words, and strings with their length in front.
-- A reader takes bytes off the file's front; `end_of_file` is the failure of `read_exact`.
use muesli_bt.Common.{
  ℕ, ◌+◌, ◌-◌, ◌*◌, ◌/◌, ◌%◌, ◌^◌, ◌<◌, ◌≤◌, ◌≡◌, Bool, List, [], ◌∷◌, ◌++◌, append_assoc, Text, ℤ,
  pos, negsuc, IsI64, ltb, leb, if◌then◌else◌, length, take, drop, Result, ok, err, bind, require,
  arith, take-append, drop-append, length-append, le→leb,
}
use muesli_bt.Binary.Validate.{LoadError, end_of_file, string_too_large}

abbrev pub Bytes : Type 0
Bytes = List ℕ

abbrev pub Reader : Type 0 → Type 0
Reader A = Bytes → Result LoadError (A × Bytes)

infixl 5 ◌>>=◌ ◌>>◌
abbrev pub ◌>>=◌ : {A B : Type 0} → Reader A → (A → Reader B) → Reader B
◌>>=◌ m f bytes = bind (m bytes) λ (a, rest). f a rest

abbrev pub ◌>>◌ : {B : Type 0} → Reader (Unit {0}) → Reader B → Reader B
m >> k = m >>= λ _. k

abbrev pub pure : {A : Type 0} → A → Reader A
pure a bytes = ok (a, bytes)

abbrev pub check : Bool → LoadError → Reader (Unit {0})
check b e bytes = bind (require b e) λ _. ok (tt, bytes)

unfoldable pub write_u8 : ℕ → Bytes
write_u8 v = (v % 256) ∷ []

unfoldable pub write_u32 : ℕ → Bytes
write_u32 v = (v % 256) ∷ (v / 2 ^ 8 % 256) ∷ (v / 2 ^ 16 % 256) ∷ (v / 2 ^ 24 % 256) ∷ []

unfoldable pub write_u64 : ℕ → Bytes
write_u64 v =
    (v % 256)
    ∷ (v / 2 ^ 8 % 256)
    ∷ (v / 2 ^ 16 % 256)
    ∷ (v / 2 ^ 24 % 256)
    ∷ (v / 2 ^ 32 % 256)
    ∷ (v / 2 ^ 40 % 256)
    ∷ (v / 2 ^ 48 % 256)
    ∷ (v / 2 ^ 56 % 256)
    ∷ []

-- The casts between `std::int64_t` and `std::uint64_t`.
unfoldable pub to_u64 : ℤ → ℕ
to_u64 (pos n) = n % 2 ^ 64
to_u64 (negsuc n) = 2 ^ 64 - 1 - n % 2 ^ 64

unfoldable pub to_i64 : ℕ → ℤ
to_i64 v = if ltb v (2 ^ 63) then pos v else negsuc (2 ^ 64 - 1 - v)

unfoldable pub write_i64 : ℤ → Bytes
write_i64 v = write_u64 (to_u64 v)

-- The bit pattern of a double is copied by `memcpy`.
unfoldable pub write_f64 : ℕ → Bytes
write_f64 bits = write_u64 bits

unfoldable pub read_u8 : Reader ℕ
read_u8 [] = err end_of_file
read_u8 (b ∷ rest) = ok (b, rest)

unfoldable pub read_u32 : Reader ℕ
unfolding read_u8
read_u32 = do
  a ← read_u8
  b ← read_u8
  c ← read_u8
  d ← read_u8
  pure (a + b * 2 ^ 8 + c * 2 ^ 16 + d * 2 ^ 24)

unfoldable pub read_u64 : Reader ℕ
unfolding read_u32
read_u64 = do lo ← read_u32; hi ← read_u32; pure (lo + hi * 2 ^ 32)

unfoldable pub read_i64 : Reader ℤ
read_i64 = do v ← read_u64; pure (to_i64 v)

unfoldable pub read_f64 : Reader ℕ
read_f64 = read_u64

-- `read_exact` of `len` bytes.
unfoldable pub read_bytes : ℕ → Reader Text
read_bytes len bytes =
    if ltb (length bytes) len then err end_of_file else ok (take len bytes, drop len bytes)

abbrev pub k_max_serialised_items : ℕ
k_max_serialised_items = 1_000_000

unfoldable pub write_string : Text → Bytes
write_string text = write_u32 (length text) ++ text

unfoldable pub read_string : Reader Text
read_string = do
  len ← read_u32
  check (leb len (k_max_serialised_items * 16)) string_too_large
  read_bytes len

-- Each reader gives back what its writer wrote, and leaves what follows.
pub read_u8-write_u8 :
    (v : ℕ) (rest : Bytes) → v < 256 → read_u8 (write_u8 v ++ rest) ≡ ok (v, rest)
unfolding read_u8 write_u8
read_u8-write_u8 v rest h = ground arith

pub read_u32-write_u32 :
    (v : ℕ) (rest : Bytes) → v < 2 ^ 32 → read_u32 (write_u32 v ++ rest) ≡ ok (v, rest)
unfolding read_u32 write_u32
read_u32-write_u32 v rest h = ground arith

pub read_u64-write_u64 :
    (v : ℕ) (rest : Bytes) → v < 2 ^ 64 → read_u64 (write_u64 v ++ rest) ≡ ok (v, rest)
unfolding read_u64 write_u64
read_u64-write_u64 v rest h = ground arith

pub to_i64-to_u64 : (v : ℤ) → IsI64 v → to_i64 (to_u64 v) ≡ v
unfolding to_i64 to_u64
to_i64-to_u64 (pos n) h = ground arith
to_i64-to_u64 (negsuc n) h = ground arith

to_u64_lt : (v : ℤ) → to_u64 v < 2 ^ 64
unfolding to_u64
to_u64_lt (pos n) = omega arith
to_u64_lt (negsuc n) = omega arith

pub read_i64-write_i64 :
    (v : ℤ) (rest : Bytes) → IsI64 v → read_i64 (write_i64 v ++ rest) ≡ ok (v, rest)
unfolding read_i64 write_i64
read_i64-write_i64 v rest h =
    rw (read_u64-write_u64 (to_u64 v) rest (to_u64_lt v), to_i64-to_u64 v h)

pub read_f64-write_f64 :
    (v : ℕ) (rest : Bytes) → v < 2 ^ 64 → read_f64 (write_f64 v ++ rest) ≡ ok (v, rest)
unfolding read_f64 write_f64
read_f64-write_f64 v rest h = read_u64-write_u64 v rest h

pub read_bytes-append :
    (text rest : Bytes) → read_bytes (length text) (text ++ rest) ≡ ok (text, rest)
unfolding read_bytes
read_bytes-append text rest =
    ground (arith, take-append text rest, drop-append text rest, length-append text rest)

pub read_string-write_string :
    (text rest : Bytes)
    → length text ≤ k_max_serialised_items * 16
    → read_string (write_string text ++ rest) ≡ ok (text, rest)
unfolding read_string write_string
read_string-write_string text rest h = rw (
  append_assoc (write_u32 (length text)) text rest,
  read_u32-write_u32 (length text) (text ++ rest) (omega arith),
  le→leb (length text) (k_max_serialised_items * 16) h,
  read_bytes-append text rest,
)
