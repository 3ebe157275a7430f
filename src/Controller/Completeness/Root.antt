-- ===== src/Controller/Completeness/Root.antt =====
-- The order of the map's `range`, and the jet id of the root, which is empty.
use mathlib.Core.List.{cons-ne-nil}
use block_explorer.Prelude.{
  ℕ, zero, suc, ◌-◌, ◌≡◌, ◌≢◌, refl, sym, ◌∙◌, inl, inr, Bool, true, false, Option, none, some,
  List, [], ◌∷◌, ◌++◌, arith, Text, length, take, In, Option-cases,
}
use block_explorer.Controller.Completeness.{
  panics, flip, invert_last_symbol, sibling_round, sibling_loop, parent_round, parent_iterator,
  parent_loop, both_loops, pulse_is_complete,
}
use block_explorer.Controller.Completeness.Loops.{Flow-cases, both_loops_sound}
use block_explorer.Controller.Completeness.Runs.{both_loops_complete}

-- In no order does a pulse with the root's jet drop and another one pass.
pub root_never_passes : (d : List Text) → In [] d → d ≢ [] ∷ [] → pulse_is_complete d ≢ some true
unfolding pulse_is_complete
root_never_passes [] m n h = m
root_never_passes ([] ∷ []) m n h = n refl
root_never_passes ([] ∷ y ∷ d) m n h = (both_loops_sound ([] ∷ y ∷ d) h).1 m
root_never_passes ((c ∷ s) ∷ d) m n h = (both_loops_sound ((c ∷ s) ∷ d) h).1 m

pub invert-cons : (c : ℕ) (s : Text) → (t : Text) × (invert_last_symbol (c ∷ s) ≡ some t)
unfolding invert_last_symbol
invert-cons c [] = (flip c ∷ [], refl)
invert-cons c (d ∷ s) = let (t, e) = invert-cons d s in (c ∷ t, rw e refl)

sibling_loop_total : (d ids : List Text) → ¬ In [] ids → sibling_loop d ids ≢ panics
unfolding sibling_loop sibling_round
sibling_loop_total d [] n h = cc
sibling_loop_total d ([] ∷ ids) n h = n (inl refl)
sibling_loop_total d ((c ∷ s) ∷ ids) n h =
    ground (arith, (invert-cons c s).1, sibling_loop_total d ids (λ m. n (inr m)))

parent_iterator_total :
    (d checked : List Text) (c : ℕ) (s : Text) (i : ℕ)
    → parent_iterator d checked (c ∷ s) i ≢ panics
unfolding parent_iterator parent_round
parent_iterator_total d checked c s zero h = cc
parent_iterator_total d checked c s (suc i) h =
    let (t, e) = invert-cons c (take i s) in
    ground
      (arith, e, parent_iterator_total d checked c s i, parent_iterator_total d (t ∷ checked) c s i)

pub parent_loop_total :
    (d checked ids : List Text) → ¬ In [] ids → parent_loop d checked ids ≢ panics
unfolding parent_loop
parent_loop_total d checked [] n h = cc
parent_loop_total d checked ([] ∷ ids) n h = n (inl refl)
parent_loop_total d checked ((c ∷ s) ∷ ids) n h =
    elim (Flow-cases (parent_iterator d checked (c ∷ s) (length (c ∷ s) - 1))) [
      | inl e ↦ parent_iterator_total d checked c s (length (c ∷ s) - 1) e
      | inr (inl e) ↦ ground arith
      | inr (inr (mid, e)) ↦ ground (arith, parent_loop_total d mid ids (λ m. n (inr m)))
    ]

both_loops_total : (d : List Text) → ¬ In [] d → both_loops d ≢ none
unfolding both_loops
both_loops_total d n h = elim (Flow-cases (sibling_loop d d)) [
  | inl e ↦ sibling_loop_total d d n e
  | inr (inl e) ↦ ground arith
  | inr (inr (_, e)) ↦ ground (arith, parent_loop_total d [] d n)
]

pub pulse-two :
    (s t : Text) (d : List Text) → pulse_is_complete (s ∷ t ∷ d) ≡ both_loops (s ∷ t ∷ d)
unfolding pulse_is_complete
pulse-two [] t d = refl
pulse-two (c ∷ s) t d = refl

pulse-both_loops : (d : List Text) → ¬ In [] d → d ≢ [] → pulse_is_complete d ≡ both_loops d
unfolding pulse_is_complete
pulse-both_loops [] n ne = absurd (ne refl)
pulse-both_loops ([] ∷ d) n ne = absurd (n (inl refl))
pulse-both_loops ((c ∷ s) ∷ d) n ne = refl

-- Without the root's jet drop the function neither panics nor fails to return.
pub pulse_is_complete_total :
    (d : List Text) → ¬ In [] d → (b : Bool) × (pulse_is_complete d ≡ some b)
unfolding pulse_is_complete
pulse_is_complete_total [] n = (false, refl)
pulse_is_complete_total (s ∷ d) n =
    rw (pulse-both_loops (s ∷ d) n (cons-ne-nil s d)) (elim (Option-cases (both_loops (s ∷ d))) [
      | inl e ↦ absurd (both_loops_total (s ∷ d) n e)
      | inr (b, e) ↦ (b, e)
    ])

-- The two lists hold the same jet ids.
abbrev pub SameSet : List Text → List Text → Type 0
SameSet d d' = ((s : Text) → In s d → In s d') × ((s : Text) → In s d' → In s d)

both_loops_order :
    (d d' : List Text) → SameSet d d' → both_loops d ≡ some true → both_loops d' ≡ some true
both_loops_order d d' (to, from) h =
    let (bal, root) = both_loops_sound d h in
    both_loops_complete d'
      (λ p b q m. let (j, k, e) = bal p b q (from (p ++ b ∷ q) m) in (j, to j k, e))
      (λ m. root (from [] m))

same_result :
    {o o' : Option Bool} {b b' : Bool}
    → o ≡ some b
    → o' ≡ some b'
    → (o ≡ some true → o' ≡ some true)
    → (o' ≡ some true → o ≡ some true)
    → o ≡ o'
same_result {b = true} e e' to from = e ∙ sym (to e)
same_result {b = false} {b' = true} e e' to from = from e' ∙ sym e'
same_result {b = false} {b' = false} e e' to from = e ∙ sym e'

-- Without the root's jet drop the result does not depend on the order in which Go's `range` meets
-- the jet ids.
pub pulse_is_complete_order :
    (d d' : List Text) → SameSet d d' → ¬ In [] d → pulse_is_complete d ≡ pulse_is_complete d'
pulse_is_complete_order [] [] same n = refl
pulse_is_complete_order [] (s ∷ d') same n = absurd (same.1 s (inl refl))
pulse_is_complete_order (s ∷ d) [] same n = absurd (same.0 s (inl refl))
pulse_is_complete_order (s ∷ d) (s' ∷ d') same n =
    let n' : ¬ In [] (s' ∷ d') = λ m. n (same.1 [] m) in
    let e = pulse-both_loops (s ∷ d) n (cons-ne-nil s d) in
    let e' = pulse-both_loops (s' ∷ d') n' (cons-ne-nil s' d') in
    same_result (pulse_is_complete_total (s ∷ d) n).1 (pulse_is_complete_total (s' ∷ d') n').1
      (λ p. e' ∙ both_loops_order (s ∷ d) (s' ∷ d') same (sym e ∙ p))
      (λ p. e ∙ both_loops_order (s' ∷ d') (s ∷ d) (same.1, same.0) (sym e' ∙ p))
