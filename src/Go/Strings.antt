-- ===== src/Go/Strings.antt =====
-- strings.Split with a separator of one byte, strings.HasPrefix and strings.Contains.
use block_explorer.Prelude.{
  ℕ, ◌≡◌, ◌≢◌, refl, List, [], ◌∷◌, ◌++◌, Text, All, if◌then◌else◌, ◌==◌, nat_eq, ==_refl, ==_false,
  Bool, true, false, ◌&&◌, ◌||◌,
}

abbrev pub onto_first : ℕ → List Text → List Text
onto_first c [] = (c ∷ []) ∷ []
onto_first c (part ∷ parts) = (c ∷ part) ∷ parts

unfoldable pub split : ℕ → Text → List Text
split sep [] = [] ∷ []
split sep (c ∷ s) = let parts = split sep s in if c == sep then [] ∷ parts else onto_first c parts

abbrev pub Lacks : ℕ → Text → Type 0
Lacks c = All (λ x. x ≢ c)

-- A text without the separator is one part.
pub split_one : (sep : ℕ) (s : Text) → Lacks sep s → split sep s ≡ s ∷ []
unfolding split
split_one sep [] h = refl
split_one sep (c ∷ s) h = rw (split_one sep s h.1, split) (rw (==_false c sep h.0) refl)

-- The first separator ends the first part.
pub split_two :
    (sep : ℕ) (s t : Text) → Lacks sep s → Lacks sep t → split sep (s ++ sep ∷ t) ≡ s ∷ t ∷ []
unfolding split
split_two sep [] t hs ht = rw (split_one sep t ht, split) (rw (==_refl sep) refl)
split_two sep (c ∷ s) t hs ht =
    rw (split_two sep s t hs.1 ht, split) (rw (==_false c sep hs.0) refl)

-- strings.HasPrefix and strings.Contains.
unfoldable pub has_prefix : Text → Text → Bool
has_prefix s [] = true
has_prefix [] (d ∷ t) = false
has_prefix (c ∷ s) (d ∷ t) = (c == d) && has_prefix s t

unfoldable pub contains : Text → Text → Bool
unfolding has_prefix
contains [] t = has_prefix [] t
contains (c ∷ s) t = has_prefix (c ∷ s) t || contains s t
