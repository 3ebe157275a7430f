-- ===== src/Controller/Completeness/Loops.antt =====
-- What the two loops of `pulseIsComplete` decide: every beginning of every jet id has an opposite
-- that some jet id of the pulse begins with.
use native.Mathlib.Decide.{ℕ_discrete}
use block_explorer.Prelude.{
  ℕ, zero, suc, ◌-◌, ◌<◌, ◌≡◌, refl, ◌⊎◌, inl, inr, true, some, List, [], ◌∷◌, ◌++◌, arith, Text,
  length, take, any, In, All, All-In, subst, Bool-cases, Option-cases, length-append,
}
use block_explorer.Controller.Completeness.{
  Flow, panics, returns_false, goes_on, flip, invert_last_symbol, starts_with, contains,
  has_sibling, sibling_round, sibling_loop, parent_round, parent_iterator, parent_loop, both_loops,
}
use block_explorer.Controller.Completeness.Prefixes.{
  Reached, has_sibling-Reached, contains-In, any-Reached, invert-append, invert-empty, take-at,
}

-- Each beginning of each string has its last symbol's opposite in `d`.
abbrev pub IsBalanced : List Text → Type 0
IsBalanced d = (p : Text) (b : ℕ) (q : Text) → In (p ++ b ∷ q) d → Reached d (p ++ flip b ∷ [])

-- What the strings in `checkedJetIDs` are known for.
abbrev IsChecked : List Text → List Text → Type 0
IsChecked d = All (Reached d)

-- The opposite of `s` exists and is found.
abbrev pub HasOpposite : List Text → Text → Type 0
HasOpposite d s = (t : Text) × (invert_last_symbol s ≡ some t) × Reached d t

pub HasOpposite-at :
    (d : List Text) (p : Text) (b : ℕ) → HasOpposite d (p ++ b ∷ []) → Reached d (p ++ flip b ∷ [])
HasOpposite-at d p b (t, e, r) =
    let q : t ≡ p ++ flip b ∷ [] = cc (invert-append p b) in subst (Reached d) q r

pub sibling_round_sound :
    (d : List Text) (s : Text) → sibling_round d s ≡ goes_on tt → HasOpposite d s
unfolding sibling_round
sibling_round_sound d s h = elim (Option-cases (invert_last_symbol s)) [
  | inl e ↦ absurd (ground arith)
  | inr (t, e) ↦ elim (Bool-cases (has_sibling d t)) [
    | inl f ↦ (t, e, has_sibling-Reached d t f)
    | inr f ↦ absurd (ground arith)
  ]
]

pub sibling_loop_sound :
    (d ids : List Text) (s : Text) → sibling_loop d ids ≡ goes_on tt → In s ids → HasOpposite d s
unfolding sibling_loop
sibling_loop_sound d [] s h m = absurd m
sibling_loop_sound d (jet_id ∷ ids) s h (inl e) = rw e (sibling_round_sound d jet_id (ground arith))
sibling_loop_sound d (jet_id ∷ ids) s h (inr m) = sibling_loop_sound d ids s (ground arith) m

parent_round_sound :
    (d checked : List Text) (s : Text) (out : List Text)
    → IsChecked d checked
    → parent_round d checked s ≡ goes_on out
    → HasOpposite d s × IsChecked d out
unfolding parent_round
parent_round_sound d checked s out k h = elim (Option-cases (invert_last_symbol s)) [
  | inl e ↦ absurd (ground arith)
  | inr (t, e) ↦ elim (Bool-cases (contains t checked)) [
    | inl f ↦
        let o : checked ≡ out = ground arith in
        ((t, e, All-In (Reached d) checked t k (contains-In t checked f)), rw o at k)
    | inr f ↦ elim (Bool-cases (any (starts_with t) d)) [
      | inl g ↦
          let o : t ∷ checked ≡ out = ground arith in
          ((t, e, any-Reached t d g), subst (IsChecked d) o (any-Reached t d g, k))
      | inr g ↦ absurd (ground arith)
    ]
  ]
]

-- A round that goes on hands its result to the next one.
pub Flow-cases :
    {A : Type 0} (f : Flow A) → (f ≡ panics) ⊎ (f ≡ returns_false) ⊎ ((a : A) × (f ≡ goes_on a))
Flow-cases panics = inl refl
Flow-cases returns_false = inr (inl refl)
Flow-cases (goes_on a) = inr (inr (a, refl))

parent_iterator_step :
    (d checked : List Text) (s : Text) (i : ℕ) (out : List Text)
    → parent_iterator d checked s (suc i) ≡ goes_on out
    → (mid : List Text) × (parent_round d checked (take (suc i) s) ≡ goes_on mid)
      × (parent_iterator d mid s i ≡ goes_on out)
unfolding parent_iterator
parent_iterator_step d checked s i out h =
    elim (Flow-cases (parent_round d checked (take (suc i) s))) [
      | inl e ↦ absurd (ground arith)
      | inr (inl e) ↦ absurd (ground arith)
      | inr (inr (mid, e)) ↦ (mid, e, ground arith)
    ]

parent_iterator_sound :
    (d checked : List Text) (s : Text) (i : ℕ) (out : List Text)
    → IsChecked d checked
    → parent_iterator d checked s i ≡ goes_on out
    → ((j : ℕ) → j < i → HasOpposite d (take (suc j) s)) × IsChecked d out
unfolding parent_iterator
parent_iterator_sound d checked s zero out k h =
    ((λ j l. absurd (omega arith)), subst (IsChecked d) (ground arith) k)
parent_iterator_sound d checked s (suc i) out k h =
    let (mid, e, f) = parent_iterator_step d checked s i out h in
    let (o, k') = parent_round_sound d checked (take (suc i) s) mid k e in
    let (below, k'') = parent_iterator_sound d mid s i out k' f in
    ((λ j l. elim (ℕ_discrete j i) [ yes e ↦ rw e o | no n ↦ below j (omega arith) ]), k'')

parent_loop_step :
    (d checked : List Text) (s : Text) (ids : List Text) (out : List Text)
    → parent_loop d checked (s ∷ ids) ≡ goes_on out
    → (mid : List Text) × (parent_iterator d checked s (length s - 1) ≡ goes_on mid)
      × (parent_loop d mid ids ≡ goes_on out)
unfolding parent_loop
parent_loop_step d checked s ids out h =
    elim (Flow-cases (parent_iterator d checked s (length s - 1))) [
      | inl e ↦ absurd (ground arith)
      | inr (inl e) ↦ absurd (ground arith)
      | inr (inr (mid, e)) ↦ (mid, e, ground arith)
    ]

parent_loop_sound :
    (d checked ids : List Text) (out : List Text) (s : Text) (j : ℕ)
    → IsChecked d checked
    → parent_loop d checked ids ≡ goes_on out
    → In s ids
    → j < length s - 1
    → HasOpposite d (take (suc j) s)
parent_loop_sound d checked [] out s j k h m l = absurd m
parent_loop_sound d checked (x ∷ ids) out s j k h m l =
    let (mid, e, f) = parent_loop_step d checked x ids out h in
    let (here', k') = parent_iterator_sound d checked x (length x - 1) mid k e in
    elim m [
      | inl q ↦ rw q (here' j (rw q at l))
      | inr m' ↦ parent_loop_sound d mid ids out s j k' f m' l
    ]

both_loops_step :
    (d : List Text)
    → both_loops d ≡ some true
    → (sibling_loop d d ≡ goes_on tt) × (out : List Text) × (parent_loop d [] d ≡ goes_on out)
unfolding both_loops
both_loops_step d h = elim (Flow-cases (sibling_loop d d)) [
  | inl e ↦ absurd (ground arith)
  | inr (inl e) ↦ absurd (ground arith)
  | inr (inr (tt, e)) ↦ elim (Flow-cases (parent_loop d [] d)) [
    | inl f ↦ absurd (ground arith)
    | inr (inl f) ↦ absurd (ground arith)
    | inr (inr (out, f)) ↦ (e, out, f)
  ]
]

-- The loops let a set pass only if it is balanced, and holds no empty jet id.
pub both_loops_sound : (d : List Text) → both_loops d ≡ some true → IsBalanced d × (In [] d → ⊥)
both_loops_sound d h =
    let (sib, out, par) = both_loops_step d h in
    (balanced sib out par, λ m. root (sibling_loop_sound d d [] sib m))
  where
    root : HasOpposite d [] → ⊥
    root (t, e, r) = cc invert-empty

    balanced :
        sibling_loop d d ≡ goes_on tt
        → (out : List Text) → parent_loop d [] d ≡ goes_on out
        → IsBalanced d
    balanced sib out par p b [] m = HasOpposite-at d p b (sibling_loop_sound d d _ sib m)
    balanced sib out par p b (c ∷ q) m = HasOpposite-at d p b (
        rw take-at at (
          parent_loop_sound d [] d out (p ++ b ∷ c ∷ q) (length p) tt par m
            (omega (arith, length-append p (b ∷ c ∷ q)))))
