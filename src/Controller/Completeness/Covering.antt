-- ===== src/Controller/Completeness/Covering.antt =====
-- What completeness of a pulse means: its jet ids divide the whole tree of jets. Every long enough
-- string of bits begins with one of them.
use mathlib.Core.List.{append_assoc, append-nil, cons-ne-nil}
use native.Mathlib.Decide.{ℕ_discrete}
use block_explorer.Prelude.{
  Extends, ℕ, zero, suc, ◌≤◌, max, ◌≡◌, ◌≢◌, refl, sym, ap, ◌∙◌, ◌⊎◌, ◌↔◌, inl, inr, true, some,
  List, [], ◌∷◌, ◌++◌, arith, Text, length, In, All, All-In, length-append, subst,
}
use block_explorer.Controller.Completeness.{flip, pulse_is_complete}
use block_explorer.Controller.Completeness.Prefixes.{cut_cases}
use block_explorer.Controller.Completeness.Loops.{IsBalanced, both_loops_sound}
use block_explorer.Controller.Completeness.Runs.{both_loops_complete}

abbrev pub IsBit : ℕ → Type 0
IsBit c = (c ≡ b'0') ⊎ (c ≡ b'1')

abbrev pub IsBits : Text → Type 0
IsBits = All IsBit

-- The length of the longest jet id.
abbrev pub depth : List Text → ℕ
depth [] = 0
depth (s ∷ d) = max (length s) (depth d)

-- Every string of bits that is as long as the longest jet id begins with a jet id.
abbrev pub Covers : List Text → Type 0
Covers d = (w : Text) → IsBits w → depth d ≤ length w → (j : Text) × In j d × Extends j w

length-depth : (d : List Text) (s : Text) → In s d → length s ≤ depth d
length-depth [] s m = absurd m
length-depth (x ∷ d) s (inl e) = rw e (omega arith)
length-depth (x ∷ d) s (inr m) = omega (arith, length-depth d s m)

flip_other : (b c : ℕ) → IsBit b → IsBit c → b ≢ c → flip b ≡ c
unfolding flip
flip_other b c hb hc n = ground arith

flip-IsBit : (b : ℕ) → IsBit (flip b)
unfolding flip
flip-IsBit b = ground arith

All-suffix : (p q : Text) → IsBits (p ++ q) → IsBits q
All-suffix [] q h = h
All-suffix (c ∷ p) q h = All-suffix p q h.1

module _ (d : List Text) (bits : (s : Text) → In s d → IsBits s) (bal : IsBalanced d) where
  -- Walk down `w`: whatever jet id shares the first symbols of `w`, one of `d` shares one more.
  descend :
      (p s q : Text)
      → IsBits s
      → depth d ≤ length (p ++ s)
      → In (p ++ q) d
      → (j : Text) × In j d × Extends j (p ++ s)
  descend p s [] hs h m = (p ++ [], m, (s, ap (λ t. t ++ s) (sym (append-nil p))))
  descend p [] (b ∷ q) hs h m =
      absurd
        (omega (arith, length-depth d (p ++ b ∷ q) m, length-append p (b ∷ q), length-append p []))
  descend p (c ∷ s) (b ∷ q) hs h m = elim (ℕ_discrete b c) [
    | yes e ↦ back (
        descend (p ++ c ∷ []) s q hs.1 (rw shift h)
          (subst (λ t. In t d) (ap (λ x. p ++ x ∷ q) e ∙ sym (shift q)) m))
    | no n ↦
        let (j, k, (r, f)) = bal p b q m in
        let other : flip b ≡ c = flip_other b c b_IsBit hs.0 n in
        back (
          descend (p ++ c ∷ []) s r hs.1 (rw shift h)
            (subst (λ t. In t d) (f ∙ ap (λ x. (p ++ x ∷ []) ++ r) other) k))
  ]
    where
      shift : (t : Text) → (p ++ c ∷ []) ++ t ≡ p ++ c ∷ t
      shift t = append_assoc p (c ∷ []) t

      b_IsBit : IsBit b
      b_IsBit = (All-suffix p (b ∷ q) (bits (p ++ b ∷ q) m)).0

      back :
          (j : Text) × In j d × Extends j ((p ++ c ∷ []) ++ s)
          → (j : Text) × In j d × Extends j (p ++ c ∷ s)
      back = subst (λ t. (j : Text) × In j d × Extends j t) (shift s)

pub IsBalanced-Covers :
    (d : List Text) → d ≢ [] → ((s : Text) → In s d → IsBits s) → IsBalanced d → Covers d
IsBalanced-Covers [] ne bits bal w hw h = absurd (ne refl)
IsBalanced-Covers (x ∷ d) ne bits bal w hw h = descend (x ∷ d) bits bal [] w x hw h (inl refl)

-- No jet id of the set is the beginning of another one, or of itself at another place.
abbrev pub IsPrefixFree : List Text → Type 0
IsPrefixFree [] = Unit
IsPrefixFree (s ∷ d) = All (λ t. ¬ Extends s t × ¬ Extends t s) d × IsPrefixFree d

IsPrefixFree-In :
    (d : List Text) (s : Text) (b : ℕ) (r : Text) → IsPrefixFree d → In s d → In (s ++ b ∷ r) d → ⊥
IsPrefixFree-In [] s b r f m k = absurd m
IsPrefixFree-In (x ∷ d) s b r f (inl e) (inl g) =
    absurd (omega (arith, ap length (e ∙ sym g), length-append s (b ∷ r)))
IsPrefixFree-In (x ∷ d) s b r f (inl e) (inr k) =
    (All-In _ d (s ++ b ∷ r) f.0 k).0 (b ∷ r, ap (λ t. t ++ b ∷ r) e)
IsPrefixFree-In (x ∷ d) s b r f (inr m) (inl g) = (All-In _ d s f.0 m).1 (b ∷ r, sym g)
IsPrefixFree-In (x ∷ d) s b r f (inr m) (inr k) = IsPrefixFree-In d s b r f.1 m k

zeros : ℕ → Text
zeros zero = []
zeros (suc n) = b'0' ∷ zeros n

length-zeros : (n : ℕ) → length (zeros n) ≡ n
unfolding zeros
length-zeros zero = refl
length-zeros (suc n) = ap suc (length-zeros n)

zeros-IsBits : (n : ℕ) → IsBits (zeros n)
unfolding zeros
zeros-IsBits zero = tt
zeros-IsBits (suc n) = (inl refl, zeros-IsBits n)

All-prefix : (p q : Text) → IsBits (p ++ q) → IsBits p
All-prefix [] q h = tt
All-prefix (c ∷ p) q h = (h.0, All-prefix p q h.1)

IsBits-append : (p q : Text) → IsBits p → IsBits q → IsBits (p ++ q)
IsBits-append [] q hp hq = hq
IsBits-append (c ∷ p) q hp hq = (hp.0, IsBits-append p q hp.1 hq)

pub Covers-IsBalanced :
    (d : List Text) → ((s : Text) → In s d → IsBits s) → IsPrefixFree d → Covers d → IsBalanced d
Covers-IsBalanced d bits free cov p b q m =
    let (j, k, (r, e)) = cov w w_IsBits w_long in
    elim (cut_cases j r p (flip b) (zeros (depth d)) (sym e)) [
      | inl (t, g) ↦
          let (c, z, l) = longer t in
          let whole : p ++ b ∷ q ≡ j ++ c ∷ z =
            ap (λ u. u ++ b ∷ q) g ∙ append_assoc j t (b ∷ q) ∙ ap (λ u. j ++ u) l in
          absurd (IsPrefixFree-In d j c z free k (subst (λ u. In u d) whole m))
      | inr (t, g) ↦ (j, k, (t, g))
    ]
  where
    w : Text
    w = p ++ flip b ∷ zeros (depth d)

    w_IsBits : IsBits w
    w_IsBits =
        IsBits-append p _ (All-prefix p (b ∷ q) (bits (p ++ b ∷ q) m))
          (flip-IsBit b, zeros-IsBits (depth d))

    w_long : depth d ≤ length w
    w_long = omega (arith, length-append p (flip b ∷ zeros (depth d)), length-zeros (depth d))

    longer : (t : Text) → (c : ℕ) × (z : Text) × (t ++ b ∷ q ≡ c ∷ z)
    longer [] = (b, q, refl)
    longer (c ∷ t) = (c, t ++ b ∷ q, refl)

-- Whatever jet ids of bits a pulse has, it passes only if they cover the tree of jets.
pub pulse_is_complete_sound :
    (d : List Text) → ((s : Text) → In s d → IsBits s) → pulse_is_complete d ≡ some true → Covers d
unfolding pulse_is_complete
pulse_is_complete_sound [] bits h = absurd (ground arith)
pulse_is_complete_sound ([] ∷ []) bits h = λ w hw l. ([], inl refl, (w, refl))
pulse_is_complete_sound ([] ∷ y ∷ d) bits h =
    IsBalanced-Covers ([] ∷ y ∷ d) (cons-ne-nil [] (y ∷ d)) bits (both_loops_sound _ h).0
pulse_is_complete_sound ((c ∷ s) ∷ d) bits h =
    IsBalanced-Covers ((c ∷ s) ∷ d) (cons-ne-nil (c ∷ s) d) bits (both_loops_sound _ h).0

passes :
    (d : List Text)
    → ((s : Text) → In s d → IsBits s)
    → IsPrefixFree d
    → Covers d
    → pulse_is_complete d ≡ some true
unfolding pulse_is_complete
passes [] bits free cov = absurd ((cov [] tt (omega arith)).1)
passes ([] ∷ []) bits free cov = refl
passes ([] ∷ y ∷ d) bits free cov = absurd (free.0.0.0 (y, refl))
passes ((c ∷ s) ∷ d) bits free cov =
    both_loops_complete ((c ∷ s) ∷ d) (Covers-IsBalanced ((c ∷ s) ∷ d) bits free cov)
      (λ m. IsPrefixFree-In ((c ∷ s) ∷ d) [] c s free m (inl refl))

-- For jet ids of bits of which none is the beginning of another, the pulse passes exactly when
-- they cover the tree of jets.
pub pulse_is_complete_iff :
    (d : List Text)
    → ((s : Text) → In s d → IsBits s)
    → IsPrefixFree d
    → (pulse_is_complete d ≡ some true) ↔ Covers d
pulse_is_complete_iff d bits free = (pulse_is_complete_sound d bits, passes d bits free)
