-- ===== src/Extractor/Records/Whole.antt =====
-- What `retrieveRecords` gets of a pulse when the platform serves its ledger: every stream goes on
-- from the record that it is asked for, and a packet of another pulse comes after the last record.
use mathlib.Core.List.{append_assoc, append-nil}
use block_explorer.Prelude.{
  ℕ, zero, suc, ◌+◌, ◌%◌, ◌^◌, ◌≤◌, ◌<◌, ◌≡◌, ◌⊎◌, refl, sym, ap, ◌∙◌, subst, inl, inr, true, false,
  List, [], ◌∷◌, ◌++◌, ◌||◌, Text, arith, length, drop, Bool-cases,
}
use block_explorer.Platform.{PlatformRecord}
use block_explorer.Extractor.{Messages, is_rate_limit_error, is_version_error}
use block_explorer.Go.Strings.{contains}
use block_explorer.Extractor.Records.{
  GetRecords, Received, packet, failed, cancelled, Answer, opened, refused, called_off, Client,
  Portion, reopen, whole, abandon, Retrieval, retrieved, given_up, pending, iterate_from,
  is_next_pulse_packet, receive_failed, receive, request, portions,
}

pub answer_cases :
    (a : Answer)
    → (a ≡ called_off)
      ⊎ ((err : Text) × (a ≡ refused err))
      ⊎ ((stream : List Received) × (a ≡ opened stream))
answer_cases (opened stream) = inr (inr (stream, refl))
answer_cases (refused err) = inr (inl (err, refl))
answer_cases called_off = inl refl

pub portion_cases :
    (o : Portion)
    → (o ≡ abandon)
      ⊎ ((all : List PlatformRecord) × (next : ℕ) × (o ≡ whole all next))
      ⊎ ((more : List PlatformRecord) × (o ≡ reopen more))
portion_cases (reopen more) = inr (inr (more, refl))
portion_cases (whole all next) = inr (inl (all, next, refl))
portion_cases abandon = inl refl

abbrev pub Ledger : Type 0
Ledger = ℕ → List PlatformRecord

module _ (ledger : Ledger) where
  -- The pulses after one and before another have no records.
  abbrev pub EmptyBetween : ℕ → ℕ → Type 0
  EmptyBetween p n = (q : ℕ) → p < q → q < n → ledger q ≡ []

  -- A stream of a pulse of which some records are left.
  abbrev pub Serves : ℕ → List PlatformRecord → List Received → Type 0
  Serves p left [] = Unit
  Serves p left (failed err ∷ stream) = Unit
  Serves p left (cancelled ∷ stream) = Unit
  Serves p [] (packet r ∷ stream) =
      (is_next_pulse_packet p r ≡ true) × EmptyBetween p (iterate_from r)
  Serves p (x ∷ left) (packet r ∷ stream) =
      (r ≡ x) × (is_next_pulse_packet p r ≡ false) × Serves p left stream

  pub record IsFaithful (client : Client) : Type 0 where
    pub serves :
        (n : ℕ) (req : GetRecords) (stream : List Received)
        → client n req ≡ opened stream
        → Serves req.pulse_number (drop req.record_number (ledger req.pulse_number)) stream
    pub countable : (p : ℕ) → length (ledger p) < 2 ^ 32

  -- A portion leaves a beginning of the pulse's records, with at most so many left, or all of them.
  abbrev pub Sound : ℕ → ℕ → Portion → Type 0
  Sound p most (reopen more) =
      (left : List PlatformRecord) × (more ++ left ≡ ledger p) × (length left ≤ most)
  Sound p most (whole all next) = (all ≡ ledger p) × EmptyBetween p next
  Sound p most abandon = Unit

  Sound-le : (p a b : ℕ) (o : Portion) → a ≤ b → Sound p a o → Sound p b o
  Sound-le p a b (reopen more) l (left, e, h) = (left, e, omega arith)
  Sound-le p a b (whole all next) l h = h
  Sound-le p a b abandon l h = h

  module _ (texts : Messages) where
    receive_failed-Sound :
        (p : ℕ) (err : Text) (got left : List PlatformRecord)
        → got ++ left ≡ ledger p
        → Sound p (length left) (receive_failed texts err got)
    unfolding receive_failed
    receive_failed-Sound p err got left e = elim (Bool-cases (is_rate_limit_error texts err)) [
      | inl r ↦ rw r (left, e, omega arith)
      | inr r ↦
          rw r
            (elim (Bool-cases
              (contains err texts.not_final_pulse_data || contains err texts.not_found)) [
                | inl c ↦ rw c (left, e, omega arith)
                | inr c ↦ rw c tt
              ])
    ]

    pub receive-Sound :
        (p : ℕ) (stream : List Received) (got left : List PlatformRecord)
        → got ++ left ≡ ledger p
        → Serves p left stream
        → Sound p (length left) (receive texts p stream got)
    unfolding receive
    receive-Sound p [] got left e h = (left, e, omega arith)
    receive-Sound p (cancelled ∷ stream) got left e h = tt
    receive-Sound p (failed err ∷ stream) got left e h = receive_failed-Sound p err got left e
    receive-Sound p (packet r ∷ stream) got [] e h = rw h.0 (sym (append-nil got) ∙ e, h.1)
    receive-Sound p (packet r ∷ stream) got (x ∷ left) e (same, own, h) = rw own (
        Sound-le p (length left) (suc (length left)) _ (omega arith) (
          receive-Sound p stream (got ++ r ∷ []) left
            (append_assoc got (r ∷ []) left ∙ ap (λ y. got ++ y ∷ left) same ∙ e) h))

    drop-onto :
        (got left all : List PlatformRecord) → got ++ left ≡ all → drop (length got) all ≡ left
    drop-onto [] left all e = sym e
    drop-onto (x ∷ got) left [] e = cc
    drop-onto (x ∷ got) left (y ∷ all) e = drop-onto got left all (cc)

    got-le : (got left all : List PlatformRecord) → got ++ left ≡ all → length got ≤ length all
    got-le [] left all e = omega arith
    got-le (x ∷ got) left [] e = cc
    got-le (x ∷ got) left (y ∷ all) e =
        let rest : length got ≤ length all = got-le got left all cc in omega arith

    -- What the request asks for is what is left.
    pub asked-left :
        (client : Client)
        → IsFaithful client
        → (batch_size p n : ℕ) (got left : List PlatformRecord) (stream : List Received)
        → got ++ left ≡ ledger p
        → client n (request batch_size p got) ≡ opened stream
        → Serves p left stream
    asked-left client f batch_size p n got left stream e opens =
        let short : length got ≤ length (ledger p) = got-le got left (ledger p) e in
        let small : length (ledger p) < 2 ^ 32 = f.countable p in
        let exact : length got % 2 ^ 32 ≡ length got = omega arith in
        subst (λ l. Serves p l stream) (drop-onto got left (ledger p) e)
          (subst (λ k. Serves p (drop k (ledger p)) stream) exact
            (f.serves n (request batch_size p got) stream opens))

    abbrev pub SoundEnd : ℕ → Retrieval → Type 0
    SoundEnd p (retrieved all next) = (all ≡ ledger p) × EmptyBetween p next
    SoundEnd p (given_up shutdown) = Unit
    SoundEnd p (pending got) = (left : List PlatformRecord) × (got ++ left ≡ ledger p)

    -- Of a platform that serves its ledger, a retrieval gets all records of the pulse, each once and
    -- in their order, over however many streams, and no record lies between the pulse and the one
    -- to go on from; and what it has gathered before its end is a beginning of them.
    pub portions-Whole :
        (client : Client)
        → IsFaithful client
        → (batch_size p rounds n : ℕ) (got left : List PlatformRecord) → got ++ left ≡ ledger p
        → SoundEnd p (portions texts client batch_size p rounds n got)
    unfolding portions
    portions-Whole client f batch_size p zero n got left e = (left, e)
    portions-Whole client f batch_size p (suc rounds) n got left e =
        elim (answer_cases (client n (request batch_size p got))) [
          | inl off ↦ rw (off, portions) tt
          | inr (inl (err, off)) ↦ elim (Bool-cases (is_version_error texts err)) [
            | inl v ↦ rw (off, portions) (rw v tt)
            | inr v ↦
                rw (off, portions)
                  (rw v (portions-Whole client f batch_size p rounds (n + 1) got left e))
          ]
          | inr (inr (stream, opens)) ↦
              let sound : Sound p (length left) (receive texts p stream got) =
                receive-Sound p stream got left e
                  (asked-left client f batch_size p n got left stream e opens) in
              elim (portion_cases (receive texts p stream got)) [
                | inl o ↦ rw (opens, portions) (rw o tt)
                | inr (inl (all, next, o)) ↦
                    rw (opens, portions) (rw o (subst (Sound p (length left)) o sound))
                | inr (inr (more, o)) ↦
                    let (rest, onto, few) = subst (Sound p (length left)) o sound in
                    rw (opens, portions)
                      (rw o (portions-Whole client f batch_size p rounds (n + 1) more rest onto))
              ]
        ]
