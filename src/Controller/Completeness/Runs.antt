-- ===== src/Controller/Completeness/Runs.antt =====
-- A balanced set with no empty jet id passes both loops.
use block_explorer.Prelude.{
  ℕ, zero, suc, ◌-◌, ◌≤◌, ◌≡◌, ◌≢◌, refl, ap, inl, inr, true, some, List, [], ◌∷◌, ◌++◌, arith,
  Text, length, take, In, Bool-cases, subst,
}
use block_explorer.Controller.Completeness.{
  goes_on, flip, contains, sibling_round, sibling_loop, parent_round, parent_iterator, parent_loop,
  both_loops,
}
use block_explorer.Controller.Completeness.Prefixes.{
  Reached, Reached-has_sibling, Reached-any, invert-append, take-cut, cut_at,
}
use block_explorer.Controller.Completeness.Loops.{IsBalanced}

pub sibling_round_complete :
    (d : List Text) (p : Text) (b : ℕ)
    → Reached d (p ++ flip b ∷ [])
    → sibling_round d (p ++ b ∷ []) ≡ goes_on tt
unfolding sibling_round
sibling_round_complete d p b r =
    rw (invert-append p b, sibling_round) (rw (Reached-has_sibling d _ r) refl)

parent_round_complete :
    (d checked : List Text) (p : Text) (b : ℕ)
    → Reached d (p ++ flip b ∷ [])
    → (out : List Text) × (parent_round d checked (p ++ b ∷ []) ≡ goes_on out)
unfolding parent_round
parent_round_complete d checked p b r =
    let s = p ++ flip b ∷ [] in
    elim (Bool-cases (contains s checked)) [
      | inl e ↦ (checked, ground (arith, invert-append p b))
      | inr e ↦ (s ∷ checked, ground (arith, invert-append p b, Reached-any s d r))
    ]

-- The last symbol of a text that is not empty.
pub last_symbol : (s : Text) → s ≢ [] → (p : Text) × (b : ℕ) × (s ≡ p ++ b ∷ [])
last_symbol [] h = absurd (h refl)
last_symbol (c ∷ []) h = ([], c, refl)
last_symbol (c ∷ d ∷ s) h =
    let (p, b, e) = last_symbol (d ∷ s) (λ q. cc) in (c ∷ p, b, ap (λ t. c ∷ t) e)

sibling_loop_complete :
    (d ids : List Text)
    → IsBalanced d
    → ((s : Text) → In s ids → In s d × (s ≢ []))
    → sibling_loop d ids ≡ goes_on tt
unfolding sibling_loop
sibling_loop_complete d [] bal h = refl
sibling_loop_complete d (s ∷ ids) bal h =
    let (m, ne) = h s (inl refl) in
    let (p, b, e) = last_symbol s ne in
    let reached = bal p b [] (subst (λ t. In t d) e m) in
    let round : sibling_round d s ≡ goes_on tt = rw e (sibling_round_complete d p b reached) in
    ground (arith, sibling_loop_complete d ids bal (λ t k. h t (inr k)))

parent_iterator_complete :
    (d checked : List Text) (s : Text) (i : ℕ)
    → IsBalanced d
    → In s d
    → i ≤ length s
    → (out : List Text) × (parent_iterator d checked s i ≡ goes_on out)
unfolding parent_iterator
parent_iterator_complete d checked s zero bal m h = (checked, refl)
parent_iterator_complete d checked s (suc i) bal m h =
    let (p, b, q, e, l) = cut_at i s h in
    let beginning : take (suc i) s ≡ p ++ b ∷ [] = take-cut i s p q b e l in
    let (mid, f) = parent_round_complete d checked p b (bal p b q (subst (λ t. In t d) e m)) in
    let round : parent_round d checked (take (suc i) s) ≡ goes_on mid = rw beginning f in
    let (out, g) = parent_iterator_complete d mid s i bal m (omega arith) in
    (out, rw (round, parent_iterator) g)

parent_loop_complete :
    (d checked ids : List Text)
    → IsBalanced d
    → ((s : Text) → In s ids → In s d)
    → (out : List Text) × (parent_loop d checked ids ≡ goes_on out)
unfolding parent_loop
parent_loop_complete d checked [] bal h = (checked, refl)
parent_loop_complete d checked (s ∷ ids) bal h =
    let (mid, e) =
      parent_iterator_complete d checked s (length s - 1) bal (h s (inl refl)) (omega arith) in
    let (out, f) = parent_loop_complete d mid ids bal (λ t k. h t (inr k)) in
    (out, rw (e, parent_loop) f)

pub both_loops_complete : (d : List Text) → IsBalanced d → (In [] d → ⊥) → both_loops d ≡ some true
unfolding both_loops
both_loops_complete d bal root =
    let sib = sibling_loop_complete d d bal (λ s m. (m, λ e. root (subst (λ t. In t d) e m))) in
    let (out, par) = parent_loop_complete d [] d bal (λ s m. m) in ground (arith, sib, par)
