-- ===== src/Extractor/Pulses/Serial.antt =====
-- The threads of the extractor pass over pulses without records only, and so all that the
-- extractor sends is whole.
use mathlib.Core.Option.{some-injective}
use block_explorer.Prelude.{
  ℕ, ◌≤◌, ◌<◌, ◌≡◌, refl, sym, ap, subst, inl, inr, true, false, not, ◌&&◌, some, [], arith,
  get_elem?, leb, Bool-cases, Option-cases, if_elim, ◌==◌, nat_eq,
}
use block_explorer.Platform.{FullPulse}
use block_explorer.Extractor.{Messages, Thread, PlatformExtractor, to_pulse_number}
use block_explorer.Extractor.Records.{Client, retrieve_records}
use block_explorer.Extractor.Records.Whole.{Ledger, EmptyBetween, IsFaithful}
use block_explorer.Extractor.Pulses.{
  Both, Input, look, attempt, undo, next_pulse, no_pulse, Event, proceeds, retrieves,
  may_have_records, in_turn, hand_on, go_on, answered,
}
use block_explorer.Extractor.Pulses.Sending.{Skips, Sent, free-Sent, retrieve-Sent, skip-Sent}

module _ (ledger : Ledger) (texts : Messages) where
  -- Of an answer of the platform: the next pulse is no earlier, and records come from the ledger.
  abbrev pub IsSound : ℕ → Input → Type 0
  IsSound now (look cancelled) = Unit
  IsSound now attempt = Unit
  IsSound now undo = Unit
  IsSound now (next_pulse pu client rounds) = (now ≤ pu.pulse_number) × IsFaithful ledger client
  IsSound now (no_pulse err) = Unit

  abbrev pub Serving : PlatformExtractor → Event → Type 0
  Serving e (proceeds i input) =
      (t : Thread) → get_elem? e.threads i ≡ some t → IsSound t.pu.pulse_number input
  Serving e (retrieves i client rounds) = IsFaithful ledger client
  Serving e _ = Unit

  go_on-Skips : (t : Thread) → Skips ledger t → Skips ledger (go_on texts t)
  unfolding go_on
  go_on-Skips t s =
      if_elim (Skips ledger) t.main_thread _ _ (λ m. s)
        (λ m.
          if_elim (Skips ledger) (leb (to_pulse_number t.until) t.pu.pulse_number) _ _ (λ b. s)
            (λ b. s))

  in_turn-Sends :
      (pu : FullPulse) (client : Client) (rounds : ℕ) (t t' : Thread) (e e' : PlatformExtractor)
      → IsFaithful ledger client
      → t.pu ≡ pu
      → ((n : ℕ)
          → t.next_not_empty_pulse_number ≡ some n
          → pu.pulse_number < n
          → ledger pu.pulse_number ≡ [])
      → Skips ledger t
      → in_turn texts pu client rounds t e ≡ some (t', e')
      → Sent ledger e
      → Sent ledger e' × Skips ledger t'
  unfolding in_turn
  in_turn-Sends pu client rounds t t' e e' f own gap k h s =
      elim (Bool-cases (may_have_records t.next_not_empty_pulse_number pu.pulse_number)) [
        | inl b ↦
            elim (Option-cases (retrieve_records texts client rounds pu t.main_thread false e)) [
              | inl g ↦ absurd (ground arith)
              | inr ((e'', next), g) ↦
                  let (sent, between) =
                    retrieve-Sent ledger texts client f rounds pu t.main_thread e e'' next g s in
                  let same_e : e'' ≡ e' = ground arith in
                  let same_t : record t { next_not_empty_pulse_number = next } ≡ t' =
                    ground arith in
                  (
                    subst (Sent ledger) same_e sent,
                    subst (Skips ledger) same_t (λ n is.
                        subst (λ (p : FullPulse). EmptyBetween ledger p.pulse_number n) (sym own)
                          (between n is)),
                  )
            ]
        | inr b ↦
            elim (Option-cases (retrieve_records texts client rounds pu t.main_thread true e)) [
              | inl g ↦ absurd (ground arith)
              | inr ((e'', next), g) ↦ elim (Option-cases t.next_not_empty_pulse_number) [
                | inl nothing ↦ absurd (ground arith)
                | inr (n, is) ↦
                    let early : leb n pu.pulse_number ≡ false = rw is at b in
                    let empty = gap n is (ground arith) in
                    let same_e : e'' ≡ e' = ground arith in
                    let same_t : t ≡ t' = ground arith in
                    (
                      subst (Sent ledger) same_e (
                          skip-Sent ledger texts client rounds pu t.main_thread e e'' next empty g
                            s),
                      subst (Skips ledger) same_t k,
                    )
              ]
            ]
      ]

  hand_on-Sends :
      (pu : FullPulse) (client : Client) (rounds : ℕ) (t t' : Thread) (e e' : PlatformExtractor)
      → IsFaithful ledger client
      → t.pu ≡ pu
      → ((n : ℕ)
          → t.next_not_empty_pulse_number ≡ some n
          → pu.pulse_number < n
          → ledger pu.pulse_number ≡ [])
      → Skips ledger t
      → hand_on texts pu client rounds t e ≡ some (t', e')
      → Sent ledger e
      → Sent ledger e' × Skips ledger t'
  unfolding hand_on
  hand_on-Sends pu client rounds t t' e e' f own gap k h s =
      elim (Bool-cases (not t.main_thread && leb e.max_workers 3)) [
        | inl b ↦ in_turn-Sends pu client rounds t t' e e' f own gap k (rw (b, hand_on) at h) s
        | inr b ↦
            let same = some-injective _ _ (rw (b, hand_on) at h) in
            let same_e = ap (λ (x : Both). x.1) same in
            let same_t = ap (λ (x : Both). x.0) same in
            (subst (Sent ledger) same_e s, subst (Skips ledger) same_t k)
      ]

  pub answered-Sends :
      (pu : FullPulse) (client : Client) (rounds : ℕ) (t t' : Thread) (e e' : PlatformExtractor)
      → IsFaithful ledger client
      → t.pu.pulse_number ≤ pu.pulse_number
      → Skips ledger t
      → answered texts pu client rounds t e ≡ some (t', e')
      → Sent ledger e
      → Sent ledger e' × Skips ledger t'
  unfolding answered
  answered-Sends pu client rounds t t' e e' f later k h s =
      let narrowed : Skips ledger (record t { pu = pu }) = λ n is q l. k n is q (omega arith) in
      elim (Bool-cases (pu.pulse_number == t.pu.pulse_number)) [
        | inl b ↦
            let same = some-injective _ _ (rw (b, answered) at h) in
            (
              subst (Sent ledger) (ap (λ (x : Both). x.1) same)
                  (free-Sent ledger t.main_thread e s),
              subst (Skips ledger) (ap (λ (x : Both). x.0) same) narrowed,
            )
        | inr b ↦ elim (Option-cases (hand_on texts pu client rounds (record t { pu = pu }) e)) [
          | inl g ↦ absurd (ground arith)
          | inr ((t'', e''), g) ↦
              let (sent, skips) =
                hand_on-Sends pu client rounds (record t { pu = pu }) t'' e e'' f refl
                  (λ n is l. k n is pu.pulse_number (ground arith) l) narrowed g s in
              let same_e : e'' ≡ e' = ground arith in
              let same_t : go_on texts t'' ≡ t' = ground arith in
              (subst (Sent ledger) same_e sent, subst (Skips ledger) same_t (go_on-Skips t'' skips))
        ]
      ]
