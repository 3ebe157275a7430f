-- ===== src/Controller/Completeness/Prefixes.antt =====
-- Strings and their beginnings, as the loops of `pulseIsComplete` test them.
use mathlib.Core.List.{append-nil}
use block_explorer.Prelude.{
  ℕ, zero, suc, ◌<◌, ◌≡◌, refl, sym, ap, ◌⊎◌, inl, inr, true, none, some, List, [], ◌∷◌, ◌++◌,
  arith, Text, length, take, any, In, Extends, ◌==◌, nat_eq, list_eq, ==_true, ==_refl, Bool-cases,
  any-witness, any-intro,
}
use block_explorer.Controller.Completeness.{
  flip, invert_last_symbol, starts_with, contains, has_sibling,
}

pub starts_with-Extends : (s t : Text) → starts_with s t ≡ true → Extends s t
unfolding starts_with
starts_with-Extends [] t h = (t, refl)
starts_with-Extends (c ∷ s) [] h = cc
starts_with-Extends (c ∷ s) (b ∷ t) h = elim (Bool-cases (c == b)) [
  | inl e ↦ let (r, q) = starts_with-Extends s t (ground arith) in (r, cc (==_true c b e, q))
  | inr e ↦ absurd (ground arith)
]

pub starts_with-append : (s r : Text) → starts_with s (s ++ r) ≡ true
unfolding starts_with
starts_with-append [] r = refl
starts_with-append (c ∷ s) r = ground (arith, starts_with-append s r)

pub contains-In : (s : Text) (d : List Text) → contains s d ≡ true → In s d
unfolding contains
contains-In s [] h = cc
contains-In s (j ∷ d) h = elim (Bool-cases (j == s)) [
  | inl e ↦ inl (sym (==_true j s e))
  | inr e ↦ inr (contains-In s d (ground (arith, e, h)))
]

pub In-contains : (s : Text) (d : List Text) → In s d → contains s d ≡ true
unfolding contains
In-contains s d m = any-intro (λ j. j == s) d s m (==_refl s)

-- Some string of `d` begins with `s`.
abbrev pub Reached : List Text → Text → Type 0
Reached d s = (j : Text) × In j d × Extends s j

pub any-Reached : (s : Text) (d : List Text) → any (starts_with s) d ≡ true → Reached d s
any-Reached s d h =
    let (j, m, t) = any-witness (starts_with s) d h in (j, m, starts_with-Extends s j t)

pub Reached-any : (s : Text) (d : List Text) → Reached d s → any (starts_with s) d ≡ true
Reached-any s d (j, m, (r, e)) = any-intro (starts_with s) d j m (rw e (starts_with-append s r))

pub has_sibling-Reached : (d : List Text) (s : Text) → has_sibling d s ≡ true → Reached d s
unfolding has_sibling
has_sibling-Reached d s h = elim (Bool-cases (contains s d)) [
  | inl e ↦ (s, contains-In s d e, ([], sym (append-nil s)))
  | inr e ↦ any-Reached s d (ground (arith, e, h))
]

pub Reached-has_sibling : (d : List Text) (s : Text) → Reached d s → has_sibling d s ≡ true
unfolding has_sibling
Reached-has_sibling d s r = ground (arith, Reached-any s d r)

pub invert-append : (p : Text) (b : ℕ) → invert_last_symbol (p ++ b ∷ []) ≡ some (p ++ flip b ∷ [])
unfolding invert_last_symbol
invert-append [] b = refl
invert-append (c ∷ []) b = refl
invert-append (c ∷ d ∷ p) b = rw (invert-append (d ∷ p) b)

pub invert-empty : invert_last_symbol [] ≡ none
unfolding invert_last_symbol
invert-empty = refl

pub flip_ne : (b : ℕ) → flip b ≡ b → ⊥
unfolding flip
flip_ne b h = ground arith

-- Two ways to cut a text: the first piece ends within `p`, or goes on past the symbol behind it.
pub cut_cases :
    (u r p : Text) (c : ℕ) (z : Text) → u ++ r ≡ p ++ c ∷ z → Extends u p ⊎ Extends (p ++ c ∷ []) u
cut_cases [] r p c z h = inl (p, refl)
cut_cases (a ∷ u) r [] c z h = inr (u, cc)
cut_cases (a ∷ u) r (b ∷ p) c z h = elim (cut_cases u r p c z (cc)) [
  | inl (t, e) ↦ inl (t, cc)
  | inr (t, e) ↦ inr (t, cc)
]

pub take-at : (p : Text) (b : ℕ) (q : Text) → take (suc (length p)) (p ++ b ∷ q) ≡ p ++ b ∷ []
take-at [] b q = refl
take-at (c ∷ p) b q = ap (λ t. c ∷ t) (take-at p b q)

pub take-cut :
    (i : ℕ) (s p q : Text) (b : ℕ) → s ≡ p ++ b ∷ q → length p ≡ i → take (suc i) s ≡ p ++ b ∷ []
take-cut i s p q b e l = rw (e, ← l) (take-at p b q)

-- A position within a text cuts it at a symbol.
pub cut_at :
    (i : ℕ) (s : Text)
    → i < length s
    → (p : Text) × (b : ℕ) × (q : Text) × (s ≡ p ++ b ∷ q) × (length p ≡ i)
cut_at i [] h = absurd (omega arith)
cut_at zero (b ∷ q) h = ([], b, q, refl, refl)
cut_at (suc i) (c ∷ s) h =
    let (p, b, q, e, l) = cut_at i s (omega arith) in (c ∷ p, b, q, ap (λ t. c ∷ t) e, ap suc l)
