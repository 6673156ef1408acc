-- ===== src/Binary/Trips.antt =====
-- What it takes to read back what was written, for readers and writers built from smaller ones.
use muesli_bt.Common.{
  ◌≡◌, refl, Bool, true, List, [], ◌∷◌, ◌++◌, append_assoc, length, All, Result, ok,
}
use muesli_bt.Binary.Validate.{LoadError}
use muesli_bt.Binary.Bytes.{Bytes, Reader, ◌>>=◌, ◌>>◌, pure, check}
use muesli_bt.Binary.Save.{SaveError, save_each}
use muesli_bt.Binary.Load.{read_times}

module _ {A : Type 0} where
  -- The reader takes exactly `bytes`, whatever follows, and returns `a`.
  pub record Reads (read : Reader A) (bytes : Bytes) (a : A) : Type 0 where
    pub apply : (rest : Bytes) → read (bytes ++ rest) ≡ ok (a, rest)

  -- The writer succeeds, and the reader takes what it wrote.
  pub record Trip (saved : Result SaveError Bytes) (read : Reader A) (a : A) : Type 0 where
    pub bytes : Bytes
    pub writes : saved ≡ ok bytes
    pub reads : Reads read bytes a

module _ {A B : Type 0} where
  pub Reads-bind :
      {read : Reader A} {xs ys : Bytes} {a : A} (f : A → Reader B) {b : B}
      → Reads read xs a
      → Reads (f a) ys b
      → Reads (read >>= f) (xs ++ ys) b
  Reads-bind {xs} {ys} f r s = record {
    apply = λ rest. rw (append_assoc xs ys rest, r.apply (ys ++ rest)) (s.apply rest);
  }

  pub Reads-map :
      {read : Reader A} {xs : Bytes} {a : A} (g : A → B)
      → Reads read xs a
      → Reads (read >>= λ x. pure (g x)) xs (g a)
  Reads-map g r = record { apply = λ rest. rw (r.apply rest) }

module _ {B : Type 0} where
  pub Reads-check :
      (t : Bool) (e : LoadError) {xs : Bytes} {read : Reader B} {b : B}
      → t ≡ true
      → Reads read xs b
      → Reads (check t e >> read) xs b
  Reads-check t e h r = record { apply = λ rest. rw h (r.apply rest) }

module _ {A : Type 0} {P : A → Type 0} where
  -- A counted sequence of items.
  pub Trip-each :
      (save : A → Result SaveError Bytes) (read : Reader A) (xs : List A)
      → ((x : A) → P x → Trip (save x) read x)
      → All P xs
      → Trip (save_each save xs) (read_times (length xs) read) xs
  unfolding save_each read_times
  Trip-each save read [] trip h = record {
    bytes = [];
    writes = refl;
    reads = record { apply = λ rest. refl };
  }
  Trip-each save read (x ∷ xs) trip h =
      let one = trip x h.0 in
      let more = Trip-each save read xs trip h.1 in
      record {
        bytes = one.bytes ++ more.bytes;
        writes = rw (one.writes, more.writes);
        reads = Reads-bind _ one.reads (Reads-map _ more.reads);
      }
