-- ===== src/EventLog/OneLine.antt =====
-- The line of an event has no line break of its own.
use muesli_bt.Common.{
  ℕ, suc, ◌+◌, ◌%◌, ◌≡◌, ◌≢◌, refl, subst, Bool, true, not, ◌&&◌, Option, none, some, [], ◌∷◌, ◌++◌,
  All, All-append, ◌==◌, Text, codes, ℤ, pos, negsuc, to_string-All, sym, arith,
}
use muesli_bt.EventLog.Json.{
  escaped, escape_each, append_json_escaped, append_json_escaped_each, append_integer, integer_text,
}
use muesli_bt.EventLog.Line.{
  EventFields, append_tick, serialise_event_line, runtime_contract_version,
}

-- Every byte of the text fits in a line.
abbrev pub Inline : ℕ → Type 0
Inline c = c ≢ b'\n'

pub record IsOneLine (text : Text) : Type 0 where
  pub inline : All Inline text

with_text : {out more : Text} → IsOneLine more → IsOneLine out → IsOneLine (out ++ more)
with_text {out} {more} k h = record { inline = All-append Inline out more h.inline k.inline }

abbrev pub one_line : Text → Bool
one_line [] = true
one_line (c ∷ text) = not (c == b'\n') && one_line text

-- For a literal, whose test is computed.
one_line-Inline : (text : Text) → one_line text ≡ true → All Inline text
one_line-Inline [] e = tt
one_line-Inline (c ∷ text) e = ground (arith, one_line-Inline text)

pub one_line-IsOneLine : (text : Text) → one_line text ≡ true → IsOneLine text
one_line-IsOneLine text e = record { inline = one_line-Inline text e }

with_literal :
    (more : Text) {out : Text} → IsOneLine out → one_line more ≡ true → IsOneLine (out ++ more)
with_literal more h e = with_text (one_line-IsOneLine _ e) h

escaped-IsOneLine : (c : ℕ) → IsOneLine (escaped c)
unfolding escaped
escaped-IsOneLine c = one_line-IsOneLine (escaped c) (ground arith)

escape_each-IsOneLine : (text : Text) → IsOneLine (escape_each text)
unfolding escape_each
escape_each-IsOneLine [] = record { inline = tt }
escape_each-IsOneLine (c ∷ text) = with_text (escape_each-IsOneLine text) (escaped-IsOneLine c)

with_escaped : (out text : Text) → IsOneLine out → IsOneLine (append_json_escaped out text)
with_escaped out text h =
    subst IsOneLine (sym (append_json_escaped_each out text))
      (with_text (escape_each-IsOneLine text) h)

no_digit : (d : ℕ) → (d % 10 + b'0') ≢ b'\n'
no_digit d = λ e. omega (arith, e)

integer_text-IsOneLine : (n : ℤ) → IsOneLine (integer_text n)
unfolding integer_text
integer_text-IsOneLine (pos n) = record { inline = to_string-All Inline no_digit n }
integer_text-IsOneLine (negsuc n) = record {
  inline = (λ e. omega (arith, e), to_string-All Inline no_digit (suc n));
}

with_integer : (out : Text) (n : ℤ) → IsOneLine out → IsOneLine (append_integer out n)
unfolding append_integer
with_integer out n h = with_text (integer_text-IsOneLine n) h

with_tick : (out : Text) (t : Option ℕ) → IsOneLine out → IsOneLine (append_tick out t)
unfolding append_tick
with_tick out none h = h
with_tick out (some t) h = with_integer (out ++ codes ",\"tick\":") (pos t) (with_literal _ h refl)

-- The line of an event whose data has no line break has none itself, whatever its type, its run and
-- its numbers are.
pub serialise_event_line-IsOneLine :
    (e : EventFields) → IsOneLine e.data_json → IsOneLine (serialise_event_line e)
unfolding serialise_event_line
serialise_event_line-IsOneLine e h =
    with_literal _
      (with_text h (
        with_literal _
          (with_tick _ e.tick (
            with_integer _ (pos e.seq) (
              with_literal _
                (with_integer _ e.unix_ms (
                  with_literal _
                    (with_escaped _ e.run_id (
                      with_literal _
                        (with_escaped _ e.type_name (
                          with_literal _
                            (with_escaped _ runtime_contract_version (one_line-IsOneLine _ refl))
                            refl))
                        refl))
                    refl))
                refl)))
          refl))
      refl
