-- ===== src/Storage/Links.antt =====
-- The loops of `GetPulses` over a page.
use mathlib.Core.List.{append_assoc, reverse, reverse-append, reverse-cons}
use block_explorer.Prelude.{
  ◌≡◌, refl, sym, ap, ◌∙◌, ◌⊎◌, inl, inr, List, [], ◌∷◌, ◌++◌, ℤ, ◌==◌, int_eq, map, ==_true,
  Bool-cases, if◌then◌else◌,
}
use block_explorer.Models.{Pulse}
use block_explorer.Storage.{unknown, link_before, link_asc, link_desc_from, link_desc}

-- What a pulse and the next one of a page say of each other.
abbrev pub Neighbours : Pulse → Pulse → Type 0
Neighbours older newer =
    ((newer.prev_pulse_number ≡ older.pulse_number)
      × (older.next_pulse_number ≡ newer.pulse_number))
    ⊎ ((newer.prev_pulse_number ≡ unknown) × (older.next_pulse_number ≡ unknown))

abbrev pub Agree : List Pulse → Type 0
Agree [] = Unit
Agree (p ∷ []) = Unit
Agree (p ∷ q ∷ rest) = Neighbours p q × Agree (q ∷ rest)

-- The older neighbour and the newer one after a round.
abbrev older_of : Pulse → Pulse → Pulse
older_of p q =
    if q.prev_pulse_number == p.pulse_number
    then record p { next_pulse_number = q.pulse_number }
    else record p { next_pulse_number = unknown }

abbrev newer_of : Pulse → Pulse → Pulse
newer_of p q =
    if q.prev_pulse_number == p.pulse_number then q else record q { prev_pulse_number = unknown }

link_before-Agree : (p : Pulse) (page : List Pulse) → Agree page → Agree (link_before p page)
unfolding link_before
link_before-Agree p [] h = tt
link_before-Agree p (q ∷ []) h = elim (Bool-cases (q.prev_pulse_number == p.pulse_number)) [
  | inl e ↦ rw e (inl (==_true _ _ e, refl), tt)
  | inr e ↦ rw e (inr (refl, refl), tt)
]
link_before-Agree p (q ∷ r ∷ rest) h = elim (Bool-cases (q.prev_pulse_number == p.pulse_number)) [
  | inl e ↦ rw e (inl (==_true _ _ e, refl), h)
  | inr e ↦ rw e (inr (refl, refl), h)
]

link_asc-Agree : (page : List Pulse) → Agree (link_asc page)
unfolding link_asc
link_asc-Agree [] = tt
link_asc-Agree (p ∷ rest) = link_before-Agree p (link_asc rest) (link_asc-Agree rest)

link_before-front :
    (x : Pulse) (page : List Pulse) (y z : Pulse)
    → link_before x (y ∷ page ++ z ∷ []) ≡ link_before x (y ∷ page) ++ z ∷ []
unfolding link_before
link_before-front x page y z = elim (Bool-cases (y.prev_pulse_number == x.pulse_number)) [
  | inl e ↦ rw e refl
  | inr e ↦ rw e refl
]

link_asc_nonempty :
    (xs : List Pulse) (p : Pulse)
    → (y : Pulse) × (page : List Pulse) × (link_asc (xs ++ p ∷ []) ≡ y ∷ page)
unfolding link_asc link_before
link_asc_nonempty [] p = (p, [], refl)
link_asc_nonempty (x ∷ xs) p =
    let (y, page, e) = link_asc_nonempty xs p in
    elim (Bool-cases (y.prev_pulse_number == x.pulse_number)) [
      | inl b ↦ rw e (rw b (_, _, refl))
      | inr b ↦ rw e (rw b (_, _, refl))
    ]

-- The end of a page is linked by itself, and the rest without it.
link_asc-end :
    (xs : List Pulse) (p q : Pulse)
    → link_asc (xs ++ p ∷ q ∷ []) ≡ link_asc (xs ++ older_of p q ∷ []) ++ newer_of p q ∷ []
unfolding link_asc link_before
link_asc-end [] p q = elim (Bool-cases (q.prev_pulse_number == p.pulse_number)) [
  | inl e ↦ rw e refl
  | inr e ↦ rw e refl
]
link_asc-end (x ∷ xs) p q =
    let (y, page, e) = link_asc_nonempty xs (older_of p q) in
    ap (link_before x) (link_asc-end xs p q ∙ ap (λ l. l ++ newer_of p q ∷ []) e)
    ∙ link_before-front x page y (newer_of p q)
    ∙ ap (λ l. link_before x l ++ newer_of p q ∷ []) (sym e)

link_desc_from-reverse :
    (q : Pulse) (rest : List Pulse)
    → link_desc_from q rest ≡ reverse (link_asc (reverse rest ++ q ∷ []))
unfolding link_desc_from link_asc link_before
link_desc_from-reverse q [] = refl
link_desc_from-reverse q (p ∷ rest) =
    let round : link_desc_from q (p ∷ rest) ≡ newer_of p q ∷ link_desc_from (older_of p q) rest =
      elim (Bool-cases (q.prev_pulse_number == p.pulse_number)) [
        | inl e ↦ rw e refl
        | inr e ↦ rw e refl
      ] in
    let turned : reverse (p ∷ rest) ++ q ∷ [] ≡ reverse rest ++ p ∷ q ∷ [] =
      ap (λ l. l ++ q ∷ []) (reverse-cons p rest) ∙ append_assoc (reverse rest) (p ∷ []) (q ∷ []) in
    round
    ∙ ap (λ l. newer_of p q ∷ l) (link_desc_from-reverse (older_of p q) rest)
    ∙ sym (reverse-append (link_asc (reverse rest ++ older_of p q ∷ [])) (newer_of p q ∷ []))
    ∙ ap reverse (sym (ap link_asc turned ∙ link_asc-end (reverse rest) p q))

-- The two loops of `GetPulses` are one: a descending page is linked as the ascending page of the
-- same rows is, turned round.
pub link_desc-reverse : (page : List Pulse) → link_desc page ≡ reverse (link_asc (reverse page))
unfolding link_desc link_asc
link_desc-reverse [] = refl
link_desc-reverse (q ∷ rest) =
    link_desc_from-reverse q rest ∙ ap (λ l. reverse (link_asc l)) (sym (reverse-cons q rest))

abbrev pub numbers : List Pulse → List ℤ
numbers page = map (λ p. p.pulse_number) page

numbers-link_before :
    (p : Pulse) (page : List Pulse) → numbers (link_before p page) ≡ p.pulse_number ∷ numbers page
unfolding link_before
numbers-link_before p [] = refl
numbers-link_before p (q ∷ rest) = elim (Bool-cases (q.prev_pulse_number == p.pulse_number)) [
  | inl e ↦ rw e refl
  | inr e ↦ rw e refl
]

numbers-link_asc : (page : List Pulse) → numbers (link_asc page) ≡ numbers page
unfolding link_asc
numbers-link_asc [] = refl
numbers-link_asc (p ∷ rest) =
    numbers-link_before p (link_asc rest)
    ∙ ap (λ (l : List ℤ). p.pulse_number ∷ l) (numbers-link_asc rest)

-- The rows of a linked page, in the ascending order, agree on their neighbours: each names the
-- next one and is named by it, or both have the number -1 there; and no row's own number changes.
pub link_asc_lem :
    (page : List Pulse) → Agree (link_asc page) × (numbers (link_asc page) ≡ numbers page)
link_asc_lem page = (link_asc-Agree page, numbers-link_asc page)
