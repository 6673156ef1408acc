-- ===== src/Gc/Names.antt =====
-- The names of the collector's policies and reasons (src/gc.cpp): `policy_name`,
-- `collection_reason_name` and `parse_policy`.
use muesli_bt.Common.{
  ◌≡◌, ◌↔◌, ◌⊎◌, refl, ◌∙◌, ap, inl, inr, true, Bool-cases, Option, none, some, [], ◌∷◌, ◌==◌,
  ==→eq, if◌then◌else◌, Text, codes, text_eq, text_eq→eq,
}
use muesli_bt.Gc.Collector.{GcPolicy, CollectionReason}

unfoldable pub policy_name : GcPolicy → Text
policy_name GcPolicy.default_policy = codes "default"
policy_name GcPolicy.between_ticks = codes "between-ticks"
policy_name GcPolicy.manual = codes "manual"
policy_name GcPolicy.fail_on_tick_gc = codes "fail-on-tick-gc"

unfoldable pub collection_reason_name : CollectionReason → Text
collection_reason_name CollectionReason.threshold = codes "threshold"
collection_reason_name CollectionReason.requested = codes "requested"
collection_reason_name CollectionReason.forced = codes "forced"
collection_reason_name CollectionReason.between_ticks = codes "between-ticks"

-- The text without a colon in front.
abbrev pub without_colon : Text → Text
without_colon [] = []
without_colon (c ∷ text) = if c == b':' then text else c ∷ text

unfoldable pub parse_name : Text → Option GcPolicy
parse_name text =
    if text_eq text (codes "default")
    then some GcPolicy.default_policy
    else if text_eq text (codes "between-ticks")
    then some GcPolicy.between_ticks
    else if text_eq text (codes "manual")
    then some GcPolicy.manual
    else if text_eq text (codes "fail-on-tick-gc")
    then some GcPolicy.fail_on_tick_gc
    else none

unfoldable pub parse_policy : Text → Option GcPolicy
unfolding parse_name
parse_policy text = parse_name (without_colon text)

name_is_parsed : (p : GcPolicy) → parse_name (policy_name p) ≡ some p
unfolding parse_name policy_name
name_is_parsed GcPolicy.default_policy = refl
name_is_parsed GcPolicy.between_ticks = refl
name_is_parsed GcPolicy.manual = refl
name_is_parsed GcPolicy.fail_on_tick_gc = refl

parsed_is_name : (text : Text) (p : GcPolicy) → parse_name text ≡ some p → text ≡ policy_name p
unfolding parse_name policy_name
parsed_is_name text p e = elim (Bool-cases (text_eq text (codes "default"))) [
  | inl a ↦ named text p GcPolicy.default_policy a (rw a at e)
  | inr a ↦ elim (Bool-cases (text_eq text (codes "between-ticks"))) [
    | inl b ↦ named text p GcPolicy.between_ticks b (rw (a, b) at e)
    | inr b ↦ elim (Bool-cases (text_eq text (codes "manual"))) [
      | inl c ↦ named text p GcPolicy.manual c (rw (a, b, c) at e)
      | inr c ↦ elim (Bool-cases (text_eq text (codes "fail-on-tick-gc"))) [
        | inl d ↦ named text p GcPolicy.fail_on_tick_gc d (rw (a, b, c, d) at e)
        | inr d ↦ let clash : none ≡ some p = rw (a, b, c, d) at e in cc
      ]
    ]
  ]
]
  where
    named :
        (t : Text) (p q : GcPolicy)
        → text_eq t (policy_name q) ≡ true
        → some q ≡ some p
        → t ≡ policy_name p
    named t p q a e = let same : q ≡ p = cc in text_eq→eq t (policy_name q) a ∙ ap policy_name same

plain : (q : GcPolicy) → without_colon (policy_name q) ≡ policy_name q
unfolding policy_name
plain GcPolicy.default_policy = refl
plain GcPolicy.between_ticks = refl
plain GcPolicy.manual = refl
plain GcPolicy.fail_on_tick_gc = refl

-- A text stands for a policy if and only if it is the policy's name, or that with a colon in front.
pub parse_policy-policy_name :
    (text : Text) (p : GcPolicy)
    → (parse_policy text ≡ some p) ↔ ((text ≡ policy_name p) ⊎ (text ≡ b':' ∷ policy_name p))
unfolding parse_policy
parse_policy-policy_name text p = (into text, from)
  where
    into :
        (t : Text)
        → parse_name (without_colon t) ≡ some p
        → (t ≡ policy_name p) ⊎ (t ≡ b':' ∷ policy_name p)
    into [] e = inl (parsed_is_name [] p e)
    into (c ∷ t) e = elim (Bool-cases (c == b':')) [
      | inl a ↦
          let found : parse_name t ≡ some p = rw a at e in
          inr (ap (λ k. k ∷ t) (==→eq c b':' a) ∙ ap (λ k. b':' ∷ k) (parsed_is_name t p found))
      | inr a ↦
          let found : parse_name (c ∷ t) ≡ some p = rw a at e in
          inl (parsed_is_name (c ∷ t) p found)
    ]

    from :
        (text ≡ policy_name p) ⊎ (text ≡ b':' ∷ policy_name p)
        → parse_name (without_colon text) ≡ some p
    from (inl e) =
        ap (λ t. parse_name (without_colon t)) e ∙ ap parse_name (plain p) ∙ name_is_parsed p
    from (inr e) = ap (λ t. parse_name (without_colon t)) e ∙ name_is_parsed p
