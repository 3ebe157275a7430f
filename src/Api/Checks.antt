-- ===== src/Api/Checks.antt =====
-- What the checks of the limit, the offset and the sort word let through.
use mathlib.Core.Option.{some-injective}
use block_explorer.Prelude.{
  sym, ◌∙◌, ◌≡◌, ◌↔◌, ◌||◌, refl, ap, ==_refl, inl, inr, ◌⊎◌, true, false, Option, none, some, [],
  ◌++◌, Text, arith, ℤ, pos, negsuc, leb_ℤ, ltb_ℤ, ◌≤ℤ◌, ◌==◌, ==_true, list_eq, nat_eq, Bool-cases,
}
use block_explorer.Api.{
  or_default, failure_if, check_limit_offset, check_sort_by, should_be_in_range,
  should_not_be_negative,
}

-- A page that the storage may be asked for.
abbrev pub IsPage : ℤ → ℤ → Type 0
IsPage limit offset = (pos 1 ≤ℤ limit) × (limit ≤ℤ pos 1000) × (pos 0 ≤ℤ offset)

IsPage-failures :
    (limit offset : ℤ)
    → (failure_if (leb_ℤ limit (pos 0) || ltb_ℤ (pos 1000) limit) should_be_in_range "limit"
          ++ failure_if (ltb_ℤ offset (pos 0)) should_not_be_negative "offset"
        ≡ [])
      ↔ IsPage limit offset
IsPage-failures (pos n) (pos m) = (λ e. ground arith, λ h. ground arith)
IsPage-failures (pos n) (negsuc m) = (λ e. ground arith, λ h. ground arith)
IsPage-failures (negsuc n) (pos m) = (λ e. ground arith, λ h. ground arith)
IsPage-failures (negsuc n) (negsuc m) = (λ e. ground arith, λ h. ground arith)

-- The limit and the offset of a request, 20 and 0 where they are missing, pass just when the limit
-- is between 1 and 1000 and the offset is not negative.
pub check_limit_offset_iff :
    (l o : Option ℤ)
    → let (limit, offset, failures) = check_limit_offset l o in
      (failures ≡ []) ↔ IsPage limit offset
unfolding check_limit_offset
check_limit_offset_iff l o = IsPage-failures (or_default (pos 20) l) (or_default (pos 0) o)

apart : (s t : Text) → s ≡ t → (s == t) ≡ false → ⊥
apart s t e f = let clash : true ≡ false = sym (==_refl s) ∙ ap (λ x. s == x) e ∙ f in ground arith

-- A sort word passes just when it is missing or one of the two, and the direction is then what it
-- says.
pub check_sort_by_iff :
    (asc desc : Text) (s : Option Text)
    → ((check_sort_by asc desc s).1 ≡ []) ↔ ((s ≡ none) ⊎ (s ≡ some asc) ⊎ (s ≡ some desc))
unfolding check_sort_by
check_sort_by_iff asc desc none = (λ e. inl refl, λ h. refl)
check_sort_by_iff asc desc (some s) = elim (Bool-cases (s == asc)) [
  | inl a ↦ (λ e. inr (inl (ap some (==_true s asc a))), λ h. rw a refl)
  | inr a ↦ elim (Bool-cases (s == desc)) [
    | inl d ↦ (λ e. inr (inr (ap some (==_true s desc d))), λ h. rw (a, d) refl)
    | inr d ↦ (
      λ e. absurd (ground arith),
      λ h. elim h [
        | inl e ↦ absurd (ground arith)
        | inr (inl e) ↦ absurd (apart s asc (some-injective _ _ e) a)
        | inr (inr e) ↦ absurd (apart s desc (some-injective _ _ e) d)
      ],
    )
  ]
]
