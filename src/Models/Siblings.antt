-- ===== src/Models/Siblings.antt =====
-- Which jets are related: `JetDrop.Siblings` of etl/models/models.go, for the jet drops before and
-- after one, and `GetJetIDParents` of etl/storage/helper.go, for the jets above one.
use native.Mathlib.Decide.{ℕ_discrete}
use block_explorer.Prelude.{
  ℕ, zero, suc, ◌+◌, ◌-◌, ◌≤◌, ◌<◌, ◌≡◌, refl, sym, ap, ◌∙◌, ◌⊎◌, ◌↔◌, inl, inr, true, List, [],
  ◌∷◌, ◌++◌, arith, Text, codes, ltb, length, take, In, All, subst, Extends, Extends-take,
  take-Extends, if◌then◌else◌, length-append, last_cases,
}

unfoldable pub siblings : Text → List Text
siblings jet_id =
    let found = jet_id ∷ (jet_id ++ codes "0") ∷ (jet_id ++ codes "1") ∷ [] in
    if ltb 0 (length jet_id) then found ++ take (length jet_id - 1) jet_id ∷ [] else found

-- `for i := i; i < length; i++`, with the rounds that are left.
parents_loop : Text → ℕ → ℕ → List Text
parents_loop jet_id i zero = []
parents_loop jet_id i (suc rounds) = take (i + 1) jet_id ∷ parents_loop jet_id (i + 1) rounds

unfoldable pub get_jet_id_parents : Text → List Text
unfolding parents_loop
get_jet_id_parents jet_id = [] ∷ parents_loop jet_id 0 (length jet_id)

In-parents_loop :
    (s jet_id : Text) (i rounds n : ℕ)
    → i < n
    → n ≤ i + rounds
    → s ≡ take n jet_id
    → In s (parents_loop jet_id i rounds)
unfolding parents_loop
In-parents_loop s jet_id i zero n low high e = absurd (omega arith)
In-parents_loop s jet_id i (suc rounds) n low high e = elim (ℕ_discrete n (i + 1)) [
  | yes q ↦ inl (e ∙ ap (λ k. take k jet_id) q)
  | no q ↦ inr (In-parents_loop s jet_id (i + 1) rounds n (omega arith) (omega arith) e)
]

parents_loop-In :
    (s jet_id : Text) (i rounds : ℕ) → In s (parents_loop jet_id i rounds) → Extends s jet_id
unfolding parents_loop
parents_loop-In s jet_id i zero m = absurd m
parents_loop-In s jet_id i (suc rounds) (inl e) =
    subst (λ t. Extends t jet_id) (sym e) (take-Extends (i + 1) jet_id)
parents_loop-In s jet_id i (suc rounds) (inr m) = parents_loop-In s jet_id (i + 1) rounds m

Extends-length : (s t : Text) → Extends s t → length s ≤ length t
Extends-length s t (r, e) = omega (arith, ap length e, length-append s r)

-- The jets above a jet, and itself, are the beginnings of its jet id.
pub get_jet_id_parents_iff : (s jet_id : Text) → In s (get_jet_id_parents jet_id) ↔ Extends s jet_id
unfolding get_jet_id_parents
get_jet_id_parents_iff s jet_id = (to, from s)
  where
    to : In s (get_jet_id_parents jet_id) → Extends s jet_id
    to (inl e) = (jet_id, ap (λ t. t ++ jet_id) (sym e))
    to (inr m) = parents_loop-In s jet_id 0 (length jet_id) m

    from : (s : Text) → Extends s jet_id → In s (get_jet_id_parents jet_id)
    from [] h = inl refl
    from (c ∷ s) h =
        let bound = Extends-length (c ∷ s) jet_id h in
        inr (
          In-parents_loop (c ∷ s) jet_id 0 (length jet_id) (length (c ∷ s)) (omega arith)
            (omega arith) (Extends-take (c ∷ s) jet_id h))

-- The jet itself, its two halves, and the jet that it is a half of.
abbrev pub Related : Text → Text → Type 0
Related s t = (s ≡ t) ⊎ (s ≡ t ++ codes "0") ⊎ (s ≡ t ++ codes "1") ⊎ ((c : ℕ) × (t ≡ s ++ c ∷ []))

take-length_append : (s t : Text) → take (length s) (s ++ t) ≡ s
take-length_append [] t = refl
take-length_append (c ∷ s) t = ap (λ r. c ∷ r) (take-length_append s t)

length-last : (s : Text) (c : ℕ) → length (s ++ c ∷ []) ≡ suc (length s)
length-last s c = omega (arith, length-append s (c ∷ []))

take_last : (s : Text) (c : ℕ) → take (length (s ++ c ∷ []) - 1) (s ++ c ∷ []) ≡ s
take_last s c =
    let e : length (s ++ c ∷ []) - 1 ≡ length s = omega (arith, length-last s c) in
    rw e (take-length_append s (c ∷ []))

abbrev halves : Text → List Text
halves t = t ∷ (t ++ codes "0") ∷ (t ++ codes "1") ∷ []

siblings_half : (p : Text) (c : ℕ) → siblings (p ++ c ∷ []) ≡ halves (p ++ c ∷ []) ++ p ∷ []
unfolding siblings
siblings_half p c =
    let e : ltb 0 (length (p ++ c ∷ [])) ≡ true = ground (arith, length-last p c) in
    rw e (ap (λ r. halves (p ++ c ∷ []) ++ r ∷ []) (take_last p c))

half-same : (s p : Text) (c d : ℕ) → p ++ c ∷ [] ≡ s ++ d ∷ [] → s ≡ p
half-same s p c d e =
    let shorter : length (p ++ c ∷ []) - 1 ≡ length (s ++ d ∷ []) - 1 = ap (λ r. length r - 1) e in
    sym (take_last s d) ∙ sym (ap (λ r. take (length r - 1) r) e) ∙ take_last p c

root : (s : Text) → In s (siblings []) ↔ Related s []
unfolding siblings
root s = (to, from)
  where
    to : In s (siblings []) → Related s []
    to (inl e) = inl e
    to (inr (inl e)) = inr (inl e)
    to (inr (inr (inl e))) = inr (inr (inl e))
    to (inr (inr (inr m))) = absurd m

    from : Related s [] → In s (siblings [])
    from (inl e) = inl e
    from (inr (inl e)) = inr (inl e)
    from (inr (inr (inl e))) = inr (inr (inl e))
    from (inr (inr (inr (c, e)))) = absurd (omega (arith, ap length e, length-append s (c ∷ [])))

half : (s p : Text) (c : ℕ) → In s (halves (p ++ c ∷ []) ++ p ∷ []) ↔ Related s (p ++ c ∷ [])
half s p c = (to, from)
  where
    to : In s (halves (p ++ c ∷ []) ++ p ∷ []) → Related s (p ++ c ∷ [])
    to (inl e) = inl e
    to (inr (inl e)) = inr (inl e)
    to (inr (inr (inl e))) = inr (inr (inl e))
    to (inr (inr (inr (inl e)))) = inr (inr (inr (c, ap (λ r. r ++ c ∷ []) (sym e))))
    to (inr (inr (inr (inr m)))) = absurd m

    from : Related s (p ++ c ∷ []) → In s (halves (p ++ c ∷ []) ++ p ∷ [])
    from (inl e) = inl e
    from (inr (inl e)) = inr (inl e)
    from (inr (inr (inl e))) = inr (inr (inl e))
    from (inr (inr (inr (d, e)))) = inr (inr (inr (inl (half-same s p c d e))))

-- The siblings of a jet are the jet, its two halves and the jet that it is a half of.
pub siblings_iff : (s t : Text) → In s (siblings t) ↔ Related s t
siblings_iff s t = elim (last_cases t) [
  | inl e ↦ rw e (root s)
  | inr (p, c, e) ↦ rw (e, siblings_half p c) (half s p c)
]

abbrev pub IsBit : ℕ → Type 0
IsBit c = (c ≡ b'0') ⊎ (c ≡ b'1')

last-IsBit : (s : Text) (c : ℕ) → All IsBit (s ++ c ∷ []) → IsBit c
last-IsBit [] c h = h.0
last-IsBit (x ∷ s) c h = last-IsBit s c h.1

Related-symm : (s t : Text) → All IsBit t → Related s t → Related t s
Related-symm s t b (inl e) = inl (sym e)
Related-symm s t b (inr (inl e)) = inr (inr (inr (b'0', e)))
Related-symm s t b (inr (inr (inl e))) = inr (inr (inr (b'1', e)))
Related-symm s t b (inr (inr (inr (c, e)))) = elim (last-IsBit s c (rw (← e) b)) [
  | inl z ↦ inr (inl (e ∙ ap (λ x. s ++ x ∷ []) z))
  | inr o ↦ inr (inr (inl (e ∙ ap (λ x. s ++ x ∷ []) o)))
]

-- So a jet drop that finds another one among those before it is found by it among those after.
pub siblings_symm : (s t : Text) → All IsBit t → In s (siblings t) → In t (siblings s)
siblings_symm s t b m = (siblings_iff t s).1 (Related-symm s t b ((siblings_iff s t).0 m))
