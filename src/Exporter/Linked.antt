-- ===== src/Exporter/Linked.antt =====
-- The stream of complete pulses is a piece of the chain of pulses.
use block_explorer.Prelude.{
  ◌≡◌, refl, sym, subst, ◌∙◌, ap, inl, inr, true, false, Option, none, some, List, [], ◌∷◌, Text, ℤ,
  pos, arith, ◌<ℤ◌, ◌≤ℤ◌, leb_ℤ, Bool-cases, Option-cases,
}
use block_explorer.Models.{Pulse, empty_pulse}
use block_explorer.Interfaces.{DbError}
use block_explorer.Storage.Joined.{
  JoinedQuery, JoinedRows, get_next_complete_pulse_filter_by_prototype_reference,
}
use block_explorer.Exporter.{NextPulse, Round, response_of, get_next_pulse}

-- A row that is found meets the condition, and a row that is not is Go's zero value.
pub record FindLaws (db : JoinedRows) : Type 0 where
  pub found :
      (q : JoinedQuery)
      → (db.find q).1 ≡ none
      → (db.find q).0.prev_pulse_number ≡ q.prev_pulse_number
  pub missing :
      (q : JoinedQuery) (e : DbError) → (db.find q).1 ≡ some e → (db.find q).0 ≡ empty_pulse

abbrev pub asked : ℤ → List Text → JoinedQuery
asked n protos = record {
  prev_pulse_number = n;
  is_complete = true;
  prototype_reference_in = protos;
}

-- A round of the loop over the storage.
pub record Stored : Type 0 where
  pub rows : JoinedRows
  pub send : NextPulse → Option Text
  pub laws : FindLaws rows

abbrev pub round_of : Stored → Round
round_of s = record {
  repository = get_next_complete_pulse_filter_by_prototype_reference s.rows;
  send = s.send;
}

abbrev pub rounds_of : List Stored → List Round
rounds_of [] = []
rounds_of (s ∷ rest) = round_of s ∷ rounds_of rest

-- Each pulse is later than the one before it and names it as its previous pulse.
abbrev pub IsLinked : ℤ → List NextPulse → Type 0
IsLinked n [] = Unit
IsLinked n (p ∷ rest) =
    (p.prev_pulse_number ≡ n) × (n <ℤ p.pulse_number) × IsLinked p.pulse_number rest

module _ (db : JoinedRows) (n : ℤ) (protos : List Text) where
  abbrev answer : Pulse × Option DbError
  answer = get_next_complete_pulse_filter_by_prototype_reference db n protos

  answer_missing :
      (e : DbError)
      → (db.find (asked n protos)).1 ≡ some e
      → answer ≡ ((db.find (asked n protos)).0, none)
  unfolding get_next_complete_pulse_filter_by_prototype_reference
  answer_missing e f = ground arith

  answer_uncounted :
      (e : DbError)
      → (db.find (asked n protos)).1 ≡ none
      → (db.count (asked n protos)).1 ≡ some e
      → answer ≡ ((db.find (asked n protos)).0, none)
  unfolding get_next_complete_pulse_filter_by_prototype_reference
  answer_uncounted e f g = ground arith

  answer_counted :
      (db.find (asked n protos)).1 ≡ none
      → (db.count (asked n protos)).1 ≡ none
      → answer ≡ (
        record (db.find (asked n protos)).0 { record_amount = (db.count (asked n protos)).0 },
        none,
      )
  unfolding get_next_complete_pulse_filter_by_prototype_reference
  answer_counted f g = ground arith

  abbrev Follows : Pulse × Option DbError → Type 0
  Follows a =
      (a.1 ≡ none) × (pos 0 ≤ℤ n → leb_ℤ a.0.pulse_number n ≡ false → a.0.prev_pulse_number ≡ n)

  not_zero : pos 0 ≤ℤ n → leb_ℤ (pos 0) n ≡ false → ⊥
  not_zero l later = ground arith

  -- The storage reports no error, and a pulse that is later follows the one asked for.
  answer-Follows : FindLaws db → Follows answer
  answer-Follows laws = elim (Option-cases (db.find (asked n protos)).1) [
    | inr (e, f) ↦
        let zero_row : (db.find (asked n protos)).0 ≡ empty_pulse =
          laws.missing (asked n protos) e f in
        subst Follows (sym (answer_missing e f ∙ ap (λ (p : Pulse). (p, none)) zero_row))
          (refl, λ l later. absurd (not_zero l later))
    | inl f ↦
        let same = laws.found (asked n protos) f in
        elim (Option-cases (db.count (asked n protos)).1) [
          | inr (e, g) ↦ subst Follows (sym (answer_uncounted e f g)) (refl, λ l later. same)
          | inl g ↦ subst Follows (sym (answer_counted f g)) (refl, λ l later. same)
        ]
  ]

later-le : (a b : ℤ) → pos 0 ≤ℤ a → leb_ℤ b a ≡ false → pos 0 ≤ℤ b
later-le a b l h = ground arith

later-lt : (a b : ℤ) → leb_ℤ b a ≡ false → a <ℤ b
later-lt a b h = ground arith

-- Over any rounds of the storage, in which queries and counts fail or give no row as they like, the
-- stream from a pulse number that is not negative sends the chain of pulses from that number on:
-- each has the one sent before it as its previous pulse and a greater number, and none is sent twice.
pub get_next_pulse-IsLinked :
    (stored : List Stored) (n : ℤ) (protos : List Text)
    → pos 0 ≤ℤ n
    → IsLinked n (get_next_pulse (rounds_of stored) n protos).0
unfolding get_next_pulse
get_next_pulse-IsLinked [] n protos l = tt
get_next_pulse-IsLinked (s ∷ stored) n protos l =
    let p = (answer s.rows n protos).0 in
    let (ok, linked) = answer-Follows s.rows n protos s.laws in
    elim (Bool-cases (leb_ℤ p.pulse_number n)) [
      | inl b ↦ rw (ok, get_next_pulse) (rw b (get_next_pulse-IsLinked stored n protos l))
      | inr b ↦ elim (Option-cases (s.send (response_of p))) [
        | inr (e, f) ↦ rw (ok, get_next_pulse) (rw b (rw f tt))
        | inl f ↦
            rw (ok, get_next_pulse)
              (rw b (
                rw f (
                  linked l b,
                  later-lt n p.pulse_number b,
                  get_next_pulse-IsLinked stored p.pulse_number protos
                      (later-le n p.pulse_number l b),
                )))
      ]
    ]

-- A count that fails is no error: the pulse is sent with the number of all its records in place of
-- that of the records with one of the prototypes.
pub count_failure_sent :
    (s : Stored) (n : ℤ) (protos : List Text) (e : DbError)
    → (s.rows.find (asked n protos)).1 ≡ none
    → (s.rows.count (asked n protos)).1 ≡ some e
    → n <ℤ (s.rows.find (asked n protos)).0.pulse_number
    → s.send (response_of (s.rows.find (asked n protos)).0) ≡ none
    → get_next_pulse (round_of s ∷ []) n protos
      ≡ (response_of (s.rows.find (asked n protos)).0 ∷ [], none)
unfolding get_next_pulse
count_failure_sent s n protos e f g later sends =
    let p = (s.rows.find (asked n protos)).0 in
    let after : leb_ℤ p.pulse_number n ≡ false = ground arith in
    let known = answer_uncounted s.rows n protos e f g in
    let row = ap (λ (a : Pulse × Option DbError). a.0) known in
    let ok = ap (λ (a : Pulse × Option DbError). a.1) known in
    rw (ok, get_next_pulse)
      (rw row (rw after (rw sends (ap (λ (q : Pulse). (response_of q ∷ [], none)) row))))
