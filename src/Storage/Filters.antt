-- ===== src/Storage/Filters.antt =====
-- The filters of the queries, against a direct reading of the optional bounds.
use block_explorer.Prelude.{
  ◌≡◌, refl, inl, inr, Bool, true, false, ◌&&◌, Option, none, some, List, [], ◌∷◌, ◌++◌, ℤ, all,
  ltb_ℤ, leb_ℤ, arith, Bool-cases,
}
use block_explorer.Storage.{
  Condition, pulse_number_gt, pulse_number_ge, pulse_number_lt, pulse_number_le, timestamp_ge,
  timestamp_le, Query, all_rows, with_condition, with_optional, filter_by_pulse_number,
  filter_by_timestamp,
}

-- A row with this number and this time meets the condition.
unfoldable pub holds : Condition → ℤ → ℤ → Bool
holds (pulse_number_gt b) n t = ltb_ℤ b n
holds (pulse_number_ge b) n t = leb_ℤ b n
holds (pulse_number_lt b) n t = ltb_ℤ n b
holds (pulse_number_le b) n t = leb_ℤ n b
holds (timestamp_ge b) n t = leb_ℤ b t
holds (timestamp_le b) n t = leb_ℤ t b
holds _ n t = false

unfoldable pub selects : Query → ℤ → ℤ → Bool
selects q n t = all (λ c. holds c n t) q.conditions

-- A bound that is not given holds.
abbrev pub given : Option ℤ → (ℤ → Bool) → Bool
given none test = true
given (some b) test = test b

all-snoc :
    (p : Condition → Bool) (cs : List Condition) (c : Condition)
    → all p (cs ++ c ∷ []) ≡ (all p cs && p c)
all-snoc p [] c = ground arith
all-snoc p (x ∷ cs) c = elim (Bool-cases (p x)) [
  | inl e ↦ rw e (all-snoc p cs c)
  | inr e ↦ rw e refl
]

&&-true : (b : Bool) → b ≡ (b && true)
&&-true true = refl
&&-true false = refl

with_optional-selects :
    (c : ℤ → Condition) (o : Option ℤ) (q : Query) (n t : ℤ)
    → selects (with_optional c o q) n t ≡ (selects q n t && given o (λ b. holds (c b) n t))
unfolding selects with_optional with_condition
with_optional-selects c none q n t = &&-true _
with_optional-selects c (some b) q n t = all-snoc (λ c. holds c n t) q.conditions (c b)

regroup :
    (a b c d e f : Bool)
    → (((((true && a) && b) && c) && d) && e) && f ≡ (a && b && c && d && e && f)
regroup false b c d e f = refl
regroup true false c d e f = refl
regroup true true false d e f = refl
regroup true true true false e f = refl
regroup true true true true false f = refl
regroup true true true true true f = refl

-- The filters of `GetPulses` select the rows within all the bounds that are given.
pub filters-selects :
    (lte lt gte gt t_lte t_gte : Option ℤ) (n t : ℤ)
    → selects (filter_by_pulse_number lte lt gte gt (filter_by_timestamp t_lte t_gte all_rows)) n t
      ≡ (given t_gte (λ b. leb_ℤ b t)
          && given t_lte (λ b. leb_ℤ t b)
          && given lte (λ b. leb_ℤ n b)
          && given lt (λ b. ltb_ℤ n b)
          && given gte (λ b. leb_ℤ b n)
          && given gt (λ b. ltb_ℤ b n))
unfolding filter_by_pulse_number filter_by_timestamp holds selects
filters-selects lte lt gte gt t_lte t_gte n t =
    rw
      (
        with_optional-selects pulse_number_gt,
        with_optional-selects pulse_number_ge,
        with_optional-selects pulse_number_lt,
        with_optional-selects pulse_number_le,
        filter_by_timestamp,
        with_optional-selects timestamp_le,
        with_optional-selects timestamp_ge,
      )
      (regroup (given t_gte (λ b. leb_ℤ b t)) (given t_lte (λ b. leb_ℤ t b))
        (given lte (λ b. leb_ℤ n b)) (given lt (λ b. ltb_ℤ n b)) (given gte (λ b. leb_ℤ b n))
        (given gt (λ b. ltb_ℤ b n)))
