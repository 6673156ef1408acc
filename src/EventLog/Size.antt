-- ===== src/EventLog/Size.antt =====
-- The size of an event's line, computed without the line.
use muesli_bt.Common.{
  ℕ, ◌+◌, ◌≡◌, refl, sym, ap, ◌∙◌, Option, none, some, ◌++◌, length, length-append, Text, codes, ℤ,
  pos, arith,
}
use muesli_bt.EventLog.Json.{
  append_json_escaped, escaped_json_size, append_integer, integer_length, integer_text, escape_each,
  append_json_escaped_each, escaped_json_size-length,
}
use muesli_bt.EventLog.Line.{
  EventFields, append_tick, serialise_event_line, add_tick_size, serialise_event_line_size,
  runtime_contract_version,
}

-- What each append adds to the length.
length-escaped :
    (out text : Text) → length (append_json_escaped out text) ≡ length out + escaped_json_size text
length-escaped out text =
    ap length (append_json_escaped_each out text)
    ∙ omega (arith, length-append out (escape_each text), escaped_json_size-length text)

length-integer :
    (out : Text) (n : ℤ) → length (append_integer out n) ≡ length out + integer_length n
unfolding append_integer integer_length
length-integer out n = length-append out (integer_text n)

length-tick :
    (out : Text) (t : Option ℕ) → length (append_tick out t) ≡ add_tick_size (length out) t
unfolding append_tick add_tick_size
length-tick out none = refl
length-tick out (some t) =
    length-integer (out ++ codes ",\"tick\":") (pos t)
    ∙ ap (λ n. n + integer_length (pos t)) (length-append out (codes ",\"tick\":"))

abbrev Grows : Text → ℕ → Type 0
Grows out size = length out ≡ size

Grows-text :
    (out more : Text) {size : ℕ} → Grows out size → Grows (out ++ more) (size + length more)
Grows-text out more h = length-append out more ∙ ap (λ n. n + length more) h

Grows-escaped :
    (out text : Text) {size : ℕ}
    → Grows out size
    → Grows (append_json_escaped out text) (size + escaped_json_size text)
Grows-escaped out text h = length-escaped out text ∙ ap (λ n. n + escaped_json_size text) h

Grows-integer :
    (out : Text) (i : ℤ) {size : ℕ}
    → Grows out size
    → Grows (append_integer out i) (size + integer_length i)
Grows-integer out i h = length-integer out i ∙ ap (λ n. n + integer_length i) h

Grows-tick :
    (out : Text) (t : Option ℕ) {size : ℕ}
    → Grows out size
    → Grows (append_tick out t) (add_tick_size size t)
Grows-tick out t h = length-tick out t ∙ ap (λ n. add_tick_size n t) h

-- The size that is computed without the line is the length of the line.
pub serialise_event_line_size-length :
    (e : EventFields) → serialise_event_line_size e ≡ length (serialise_event_line e)
unfolding serialise_event_line serialise_event_line_size
serialise_event_line_size-length e = sym (
    Grows-text _ _ (
      Grows-text _ _ (
        Grows-text _ _ (
          Grows-tick _ e.tick (
            Grows-integer _ (pos e.seq) (
              Grows-text _ _ (
                Grows-integer _ e.unix_ms (
                  Grows-text _ _ (
                    Grows-escaped _ e.run_id (
                      Grows-text _ _ (
                        Grows-escaped _ e.type_name (
                          Grows-text _ _ (
                            Grows-escaped
                              (codes "{\"schema\":\"mbt.evt.v1\",\"contract_version\":\"")
                              runtime_contract_version refl)))))))))))))
