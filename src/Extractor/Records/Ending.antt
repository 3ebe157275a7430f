-- ===== src/Extractor/Records/Ending.antt =====
-- How many calls `retrieveRecords` needs of a platform that serves its ledger and that now and
-- then fails in ways that a retry gets over.
use mathlib.Core.List.{append_assoc}
use block_explorer.Prelude.{
  ℕ, zero, suc, ◌+◌, ◌≤◌, ◌<◌, ◌≡◌, ◌≢◌, refl, sym, ap, ◌∙◌, subst, ltb, inl, inr, true, false,
  List, [], ◌∷◌, ◌++◌, ◌||◌, Text, arith, length, Bool-cases,
}
use block_explorer.Platform.{PlatformRecord}
use block_explorer.Extractor.{Messages, is_rate_limit_error, is_version_error}
use block_explorer.Go.Strings.{contains}
use block_explorer.Extractor.Records.{
  GetRecords, Received, packet, failed, cancelled, Answer, opened, refused, called_off, Client,
  reopen, abandon, Retrieval, retrieved, is_next_pulse_packet, receive_failed, receive, request,
  portions,
}
use block_explorer.Extractor.Records.Whole.{
  Ledger, EmptyBetween, Serves, IsFaithful, Sound, SoundEnd, receive-Sound, asked-left,
  portions-Whole, answer_cases, portion_cases,
}

module _ (texts : Messages) where
  -- A failure after which another stream is opened.
  abbrev pub IsPassing : Text → Type 0
  IsPassing err =
      (is_rate_limit_error texts err
        || contains err texts.not_final_pulse_data
        || contains err texts.not_found)
      ≡ true

  abbrev pub IsGentle : List Received → Type 0
  IsGentle [] = Unit
  IsGentle (packet r ∷ stream) = IsGentle stream
  IsGentle (failed err ∷ stream) = IsPassing err
  IsGentle (cancelled ∷ stream) = ⊥

  -- An answer after which the retrieval goes on or ends with the pulse.
  abbrev pub IsBenign : Answer → Type 0
  IsBenign (opened stream) = IsGentle stream
  IsBenign (refused err) = is_version_error texts err ≡ false
  IsBenign called_off = ⊥

  -- An answer that brings a packet.
  abbrev pub Delivers : Answer → Type 0
  Delivers (opened (packet r ∷ stream)) = Unit
  Delivers _ = ⊥

  -- At most `gap` calls in a row bring nothing.
  pub record IsLively (gap : ℕ) (client : Client) : Type 0 where
    pub benign : (n : ℕ) (req : GetRecords) → IsBenign (client n req)
    pub delivers :
        (n : ℕ) → (j : ℕ) × (n ≤ j) × (j ≤ n + gap) × ((req : GetRecords) → Delivers (client j req))

  -- The calls for so many packets.
  abbrev pub budget : ℕ → ℕ → ℕ
  budget gap zero = 0
  budget gap (suc packets) = suc gap + budget gap packets

  budget-le : (gap a b : ℕ) → a ≤ b → budget gap a ≤ budget gap b
  budget-le gap zero b h = omega arith
  budget-le gap (suc a) zero h = absurd (omega arith)
  budget-le gap (suc a) (suc b) h = omega (arith, budget-le gap a b (omega arith))

  gentle-ne-abandon :
      (p : ℕ) (stream : List Received) (got : List PlatformRecord)
      → IsGentle stream
      → receive texts p stream got ≡ abandon
      → ⊥
  unfolding receive receive_failed
  gentle-ne-abandon p [] got g e = cc
  gentle-ne-abandon p (failed err ∷ stream) got g e = ground arith
  gentle-ne-abandon p (cancelled ∷ stream) got g e = g
  gentle-ne-abandon p (packet r ∷ stream) got g e = elim (Bool-cases (is_next_pulse_packet p r)) [
    | inl b ↦ ground arith
    | inr b ↦ gentle-ne-abandon p stream (got ++ r ∷ []) g (rw (b, receive) at e)
  ]

  -- A packet is the last one or one of those that are left.
  delivered-lt :
      (ledger : Ledger) (p : ℕ) (stream : List Received) (got left more : List PlatformRecord)
      → got ++ left ≡ ledger p
      → Serves ledger p left stream
      → Delivers (opened stream)
      → receive texts p stream got ≡ reopen more
      → (rest : List PlatformRecord) × (more ++ rest ≡ ledger p) × (length rest < length left)
  unfolding receive
  delivered-lt ledger p [] got left more e h d o = absurd d
  delivered-lt ledger p (cancelled ∷ stream) got left more e h d o = absurd d
  delivered-lt ledger p (failed err ∷ stream) got left more e h d o = absurd d
  delivered-lt ledger p (packet r ∷ stream) got [] more e h d o = absurd (ground (arith, h.0))
  delivered-lt ledger p (packet r ∷ stream) got (x ∷ left) more e (same, own, h) d o =
      let tail : receive texts p stream (got ++ r ∷ []) ≡ reopen more = rw (own, receive) at o in
      let sound : Sound ledger p (length left) (receive texts p stream (got ++ r ∷ [])) =
        receive-Sound ledger texts p stream (got ++ r ∷ []) left
          (append_assoc got (r ∷ []) left ∙ ap (λ y. got ++ y ∷ left) same ∙ e) h in
      let (rest, onto, few) = subst (Sound ledger p (length left)) tail sound in
      (rest, onto, omega arith)

  abbrev Ends : Retrieval → Type 0
  Ends t = (all : List PlatformRecord) × (next : ℕ) × (t ≡ retrieved all next)

  module _ (ledger : Ledger) (gap : ℕ) (client : Client) (faithful : IsFaithful ledger client)
      (lively : IsLively gap client) (batch_size p : ℕ) where
    portions_end :
        (rounds n j : ℕ) (got left : List PlatformRecord)
        → got ++ left ≡ ledger p
        → n ≤ j
        → ((req : GetRecords) → Delivers (client j req))
        → budget gap (length left) + j < rounds + n
        → Ends (portions texts client batch_size p rounds n got)
    unfolding portions
    portions_end zero n j got left e l d h = absurd (omega arith)
    portions_end (suc rounds) n j got left e l d h =
        let req = request batch_size p got in
        let benign = lively.benign n req in
        elim (answer_cases (client n req)) [
          | inl off ↦ absurd (subst IsBenign off benign)
          | inr (inl (err, off)) ↦
              let other : is_version_error texts err ≡ false = subst IsBenign off benign in
              let later : n ≢ j =
                λ s. subst Delivers off (subst (λ i. Delivers (client i req)) (sym s) (d req)) in
              rw (off, portions)
                (rw other (portions_end rounds (n + 1) j got left e (omega arith) d (omega arith)))
          | inr (inr (stream, opens)) ↦
              let served =
                asked-left ledger texts client faithful batch_size p n got left stream e opens in
              elim (portion_cases (receive texts p stream got)) [
                | inl o ↦ absurd (gentle-ne-abandon p stream got (subst IsBenign opens benign) o)
                | inr (inl (all, next, o)) ↦ rw (opens, portions) (rw o (all, next, refl))
                | inr (inr (more, o)) ↦
                    rw (opens, portions)
                      (rw o (elim (Bool-cases (ltb n j)) [
                        | inl early ↦
                            let before : n < j = ground arith in
                            let (rest, onto, few) =
                              subst (Sound ledger p (length left)) o
                                (receive-Sound ledger texts p stream got left e served) in
                            let less = budget-le gap (length rest) (length left) few in
                            portions_end rounds (n + 1) j more rest onto (omega arith) d
                              (omega arith)
                        | inr due ↦
                            let s : j ≡ n = ground arith in
                            let (rest, onto, few) =
                              delivered-lt ledger p stream got left more e served
                                (subst Delivers opens
                                  (subst (λ i. Delivers (client i req)) s (d req)))
                                o in
                            let less =
                              budget-le gap (suc (length rest)) (length left) (omega arith) in
                            let (j', from, soon, d') = lively.delivers (n + 1) in
                            portions_end rounds (n + 1) j' more rest onto (omega arith) d'
                              (omega arith)
                      ]))
              ]
        ]

    -- Of a platform that serves its ledger, answers with no version error, fails only in ways that a
    -- retry gets over and brings a packet at least once in any `gap + 1` calls in a row, a pulse is
    -- retrieved whole within `gap + 1` calls for each of its records and as many for the packet of
    -- the next pulse.
    pub retrieval_ends :
        (rounds : ℕ)
        → budget gap (suc (length (ledger p))) ≤ rounds
        → (next : ℕ) × (portions texts client batch_size p rounds 0 [] ≡ retrieved (ledger p) next)
          × EmptyBetween ledger p next
    retrieval_ends rounds h =
        let (j, from, soon, d) = lively.delivers 0 in
        let (all, next, e) = portions_end rounds 0 j [] (ledger p) refl from d (omega arith) in
        let (same, between) =
          subst (SoundEnd ledger texts p) e (
            portions-Whole ledger texts client faithful batch_size p rounds 0 [] (ledger p) refl) in
        (next, e ∙ ap (λ l. retrieved l next) same, between)
