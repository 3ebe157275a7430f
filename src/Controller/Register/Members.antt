-- ===== src/Controller/Register/Members.antt =====
-- Where the jet ids of the register come from.
use block_explorer.Prelude.{
  ◌≡◌, sym, ap, ◌⊎◌, inl, inr, some, List, [], ◌∷◌, ◌++◌, Text, arith, ℤ, In, lookup, insert,
  delete, ltb_ℤ, ◌==◌, ==_true, Bool-cases, Option-cases, subst,
}
use block_explorer.Models.{PulseData, pulse_data_eq}
use block_explorer.Controller.Completeness.{contains}
use block_explorer.Controller.Register.{Register, add_jet, or_empty, register_jet, clean_loop}

abbrev Entry : Type 0
Entry = PulseData × List Text

pub In-append : {A : Type 0} (a : A) (xs ys : List A) → In a (xs ++ ys) → In a xs ⊎ In a ys
In-append a [] ys m = inr m
In-append a (x ∷ xs) ys (inl e) = inl (inl e)
In-append a (x ∷ xs) ys (inr m) = elim (In-append a xs ys m) [ inl k ↦ inl (inr k) | inr k ↦ inr k ]

add_jet-cases : (i j : Text) (d : List Text) → In i (add_jet j d) → In i d ⊎ (i ≡ j)
unfolding add_jet
add_jet-cases i j d m = elim (Bool-cases (contains j d)) [
  | inl e ↦ inl (rw (e, add_jet) at m)
  | inr e ↦ elim (In-append i d (j ∷ []) (rw (e, add_jet) at m)) [
    | inl k ↦ inl k
    | inr (inl k) ↦ inr k
    | inr (inr k) ↦ absurd k
  ]
]

lookup-In : (p : PulseData) (d : List Text) (r : Register) → lookup p r ≡ some d → In (p, d) r
lookup-In p d [] e = absurd (ground arith)
lookup-In p d ((q, c) ∷ r) e = elim (Bool-cases (q == p)) [
  | inl b ↦ let same = ==_true q p b in let held : some c ≡ some d = rw b at e in inl (cc)
  | inr b ↦ inr (lookup-In p d r (rw b at e))
]

pub insert-cases :
    (x : Entry) (p : PulseData) (d : List Text) (r : Register)
    → In x (insert p d r)
    → In x r ⊎ (x ≡ (p, d))
insert-cases x p d [] (inl e) = inr e
insert-cases x p d [] (inr m) = absurd m
insert-cases x p d ((q, c) ∷ r) m = elim (Bool-cases (q == p)) [
  | inl b ↦ let k : In x ((p, d) ∷ r) = rw b at m in elim k [ inl e ↦ inr e | inr k ↦ inl (inr k) ]
  | inr b ↦
      let k : In x ((q, c) ∷ insert p d r) = rw b at m in
      elim k [
        | inl e ↦ inl (inl e)
        | inr k ↦ elim (insert-cases x p d r k) [ inl h ↦ inl (inr h) | inr h ↦ inr h ]
      ]
]

pub delete-In : (x : Entry) (p : PulseData) (r : Register) → In x (delete p r) → In x r
delete-In x p [] m = m
delete-In x p ((q, c) ∷ r) m = elim (Bool-cases (q == p)) [
  | inl b ↦ inr (delete-In x p r (rw b at m))
  | inr b ↦
      let k : In x ((q, c) ∷ delete p r) = rw b at m in
      elim k [ inl e ↦ inl e | inr k ↦ inr (delete-In x p r k) ]
]

pub clean_loop-In :
    (x : Entry) (sequential : ℤ) (copy r : Register) → In x (clean_loop sequential copy r) → In x r
unfolding clean_loop
clean_loop-In x sequential [] r m = m
clean_loop-In x sequential ((p, d) ∷ copy) r m = elim (Bool-cases (ltb_ℤ p.pulse_no sequential)) [
  | inl b ↦ delete-In x p r (clean_loop-In x sequential copy (delete p r) (rw b at m))
  | inr b ↦ clean_loop-In x sequential copy r (rw b at m)
]

-- A jet id of the register was there before a report, or is the reported one.
pub register_jet-cases :
    (p q : PulseData) (j i : Text) (d : List Text) (r : Register)
    → In (q, d) (register_jet p j r)
    → In i d
    → ((c : List Text) × In (q, c) r × In i c) ⊎ ((q ≡ p) × (i ≡ j))
unfolding register_jet
register_jet-cases p q j i d r m k = elim (insert-cases (q, d) p _ r m) [
  | inl h ↦ inl (d, h, k)
  | inr e ↦
      let own : q ≡ p = ap (λ (x : Entry). x.0) e in
      let held = subst (In i) (ap (λ (x : Entry). x.1) e) k in
      elim (add_jet-cases i j (or_empty (lookup p r)) held) [
        | inr h ↦ inr (own, h)
        | inl h ↦ inl (old own h)
      ]
]
  where
    old : q ≡ p → In i (or_empty (lookup p r)) → (c : List Text) × In (q, c) r × In i c
    old own h = elim (Option-cases (lookup p r)) [
      | inl e ↦ absurd (subst (λ o. In i (or_empty o)) e h)
      | inr (c, e) ↦ (
        c,
        subst (λ x. In (x, c) r) (sym own) (lookup-In p c r e),
        subst (λ o. In i (or_empty o)) e h,
      )
    ]
