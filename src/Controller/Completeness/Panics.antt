-- ===== src/Controller/Completeness/Panics.antt =====
-- Which orders of the map's `range` make `pulseIsComplete` panic.
use block_explorer.Prelude.{
  ℕ, ◌≡◌, refl, sym, ap, ◌∙◌, ◌↔◌, inl, inr, none, List, [], ◌∷◌, ◌++◌, arith, Text, In, All,
  Option-cases, subst,
}
use block_explorer.Controller.Completeness.{
  panics, goes_on, flip, invert_last_symbol, sibling_round, sibling_loop, parent_loop, both_loops,
  pulse_is_complete,
}
use block_explorer.Controller.Completeness.Prefixes.{Reached, invert-empty}
use block_explorer.Controller.Completeness.Loops.{
  HasOpposite, HasOpposite-at, sibling_round_sound, sibling_loop_sound, Flow-cases,
}
use block_explorer.Controller.Completeness.Runs.{last_symbol, sibling_round_complete}
use block_explorer.Controller.Completeness.Root.{invert-cons, pulse-two, parent_loop_total}

-- Some jet id of the set begins with the string whose last symbol is the other one.
abbrev pub Opposed : List Text → Text → Type 0
Opposed d s = (p : Text) × (b : ℕ) × (s ≡ p ++ b ∷ []) × Reached d (p ++ flip b ∷ [])

-- The root's jet id is met, and each one before it has its opposite.
abbrev pub MeetsRoot : List Text → List Text → Type 0
MeetsRoot d ids =
    (before : List Text) × (after : List Text) × (ids ≡ before ++ [] ∷ after)
    × All (Opposed d) before

not_empty : (d : List Text) → HasOpposite d [] → ⊥
not_empty d (t, e, r) = cc (e, invert-empty)

sibling_round-Opposed : (d : List Text) (s : Text) → sibling_round d s ≡ goes_on tt → Opposed d s
sibling_round-Opposed d s h =
    let opposite = sibling_round_sound d s h in
    let (p, b, e) = last_symbol s (λ z. not_empty d (subst (HasOpposite d) z opposite)) in
    (p, b, e, HasOpposite-at d p b (subst (HasOpposite d) e opposite))

sibling_round_panics : (d : List Text) (s : Text) → sibling_round d s ≡ panics → s ≡ []
unfolding sibling_round
sibling_round_panics d [] h = refl
sibling_round_panics d (c ∷ s) h = elim (Option-cases (invert_last_symbol (c ∷ s))) [
  | inl e ↦ absurd (let (t, f) = invert-cons c s in cc (e, f))
  | inr (t, e) ↦ absurd (ground arith)
]

sibling_loop-MeetsRoot : (d ids : List Text) → sibling_loop d ids ≡ panics → MeetsRoot d ids
unfolding sibling_loop
sibling_loop-MeetsRoot d [] h = absurd (ground arith)
sibling_loop-MeetsRoot d (s ∷ ids) h = elim (Flow-cases (sibling_round d s)) [
  | inl e ↦ let root = sibling_round_panics d s e in ([], ids, ap (λ t. t ∷ ids) root, tt)
  | inr (inl e) ↦ absurd (ground arith)
  | inr (inr (_, e)) ↦
      let later : sibling_loop d ids ≡ panics = ground arith in
      let (before, after, split, opposed) = sibling_loop-MeetsRoot d ids later in
      (s ∷ before, after, ap (λ t. s ∷ t) split, (sibling_round-Opposed d s e, opposed))
]

MeetsRoot-sibling_loop :
    (d before after : List Text)
    → All (Opposed d) before
    → sibling_loop d (before ++ [] ∷ after) ≡ panics
unfolding sibling_loop sibling_round invert_last_symbol
MeetsRoot-sibling_loop d [] after h = refl
MeetsRoot-sibling_loop d (s ∷ before) after ((p, b, e, r), h) =
    let round : sibling_round d s ≡ goes_on tt = rw e (sibling_round_complete d p b r) in
    rw (round, sibling_loop) (MeetsRoot-sibling_loop d before after h)

both_loops_panics : (d : List Text) → both_loops d ≡ none → sibling_loop d d ≡ panics
unfolding both_loops
both_loops_panics d h = elim (Flow-cases (sibling_loop d d)) [
  | inl e ↦ e
  | inr (inl e) ↦ absurd (ground arith)
  | inr (inr (_, e)) ↦
      let rootless : ¬ In [] d = λ m. not_empty d (sibling_loop_sound d d [] e m) in
      elim (Flow-cases (parent_loop d [] d)) [
        | inl f ↦ absurd (parent_loop_total d [] d rootless f)
        | inr (inl f) ↦ absurd (ground arith)
        | inr (inr (_, f)) ↦ absurd (ground arith)
      ]
]

-- When more jet drops than the root's are registered, the function panics just if the `range` meets the
-- root's empty jet id before any jet id without an opposite; it panics in no other way.
pub panics_iff :
    (s t : Text) (d : List Text)
    → (pulse_is_complete (s ∷ t ∷ d) ≡ none) ↔ MeetsRoot (s ∷ t ∷ d) (s ∷ t ∷ d)
unfolding both_loops
panics_iff s t d =
    let ids = s ∷ t ∷ d in
    (
      λ h. sibling_loop-MeetsRoot ids ids (both_loops_panics ids (sym (pulse-two s t d) ∙ h)),
      λ m.
          let (before, after, split, opposed) = m in
          let found : sibling_loop ids ids ≡ panics =
            subst (λ k. sibling_loop ids k ≡ panics) (sym split)
              (MeetsRoot-sibling_loop ids before after opposed) in
          pulse-two s t d ∙ rw (found, both_loops) refl,
    )
