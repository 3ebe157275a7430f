-- ===== src/Extractor/Pulses/Sending.antt =====
-- What the extractor sends to its channel when the platform serves its ledger: also the pulses that
-- are passed over because the platform has said that they have no records.
use mathlib.Core.Option.{some-injective}
use block_explorer.Prelude.{
  ℕ, ◌+◌, ◌≡◌, refl, sym, ap, ◌∙◌, subst, Bool, true, false, Option, none, some, [], ◌∷◌, ◌++◌,
  if◌then◌else◌, arith, All, All-append, if_elim, nat_eq,
}
use block_explorer.Platform.{FullPulse, PlatformPulseData}
use block_explorer.Extractor.{Messages, Thread, PlatformExtractor, free_worker, free_unless}
use block_explorer.Extractor.Records.{
  Client, Retrieval, retrieved, given_up, pending, conclude, retrieve_records,
}
use block_explorer.Extractor.Records.Whole.{
  Ledger, EmptyBetween, IsFaithful, SoundEnd, portions-Whole,
}

module _ (ledger : Ledger) where
  -- A pulse with all its records.
  abbrev pub IsWhole : PlatformPulseData → Type 0
  IsWhole d = d.records ≡ ledger d.pulse.pulse_number

  -- The pulses that a thread is going to pass over have no records.
  abbrev pub Skips : Thread → Type 0
  Skips t =
      (n : ℕ) → t.next_not_empty_pulse_number ≡ some n → EmptyBetween ledger t.pu.pulse_number n

  abbrev pub Sent : PlatformExtractor → Type 0
  Sent e = All IsWhole e.main_pulse_data_chan

  pub record Sends (e : PlatformExtractor) : Type 0 where
    pub sent : Sent e
    pub skips : All Skips e.threads

  pub free-Sent :
      (main_thread : Bool) (e : PlatformExtractor) → Sent e → Sent (free_unless main_thread e)
  unfolding free_unless free_worker
  free-Sent true e s = s
  free-Sent false e s = s

  module _ (texts : Messages) where
    conclude-Sent :
        (pu : FullPulse) (main_thread : Bool) (end : Retrieval) (e e' : PlatformExtractor)
        (next : Option ℕ)
        → conclude texts pu main_thread end e ≡ some (e', next)
        → SoundEnd ledger texts pu.pulse_number end
        → Sent e
        → Sent e' × ((n : ℕ) → next ≡ some n → EmptyBetween ledger pu.pulse_number n)
    unfolding conclude
    conclude-Sent pu main_thread (retrieved records m) e e' next h (all, between) s =
        let after =
          free-Sent main_thread
            (record e {
              main_pulse_data_chan =
                  e.main_pulse_data_chan ++ record { pulse = pu; records = records } ∷ [];
            })
            (All-append IsWhole e.main_pulse_data_chan
              (record { pulse = pu; records = records } ∷ []) s (all, tt)) in
        let same = some-injective _ _ h in
        (
          subst Sent (ap (λ (x : PlatformExtractor × Option ℕ). x.0) same) after,
          λ n k.
              let m_n : m ≡ n =
                some-injective m n (ap (λ (x : PlatformExtractor × Option ℕ). x.1) same ∙ k) in
              subst (EmptyBetween ledger pu.pulse_number) m_n between,
        )
    conclude-Sent pu main_thread (given_up shutdown) e e' next h end s =
        let same = some-injective _ _ h in
        let after =
          free-Sent main_thread (if shutdown then record e { shutdowns = e.shutdowns + 1 } else e)
            (if_elim Sent shutdown _ _ (λ b. s) (λ b. s)) in
        (
          subst Sent (ap (λ (x : PlatformExtractor × Option ℕ). x.0) same) after,
          λ n k.
              let wrong : none ≡ some n = ap (λ (x : PlatformExtractor × Option ℕ). x.1) same ∙ k in
              absurd (ground arith),
        )
    conclude-Sent pu main_thread (pending records) e e' next h end s = cc

    pub retrieve-Sent :
        (client : Client)
        → IsFaithful ledger client
        → (rounds : ℕ) (pu : FullPulse) (main_thread : Bool) (e e' : PlatformExtractor)
          (next : Option ℕ)
        → retrieve_records texts client rounds pu main_thread false e ≡ some (e', next)
        → Sent e
        → Sent e' × ((n : ℕ) → next ≡ some n → EmptyBetween ledger pu.pulse_number n)
    unfolding retrieve_records
    retrieve-Sent client f rounds pu main_thread e e' next h s =
        conclude-Sent pu main_thread _ e e' next h
          (portions-Whole ledger texts client f e.batch_size pu.pulse_number rounds 0 []
            (ledger pu.pulse_number) refl)
          s

    pub skip-Sent :
        (client : Client) (rounds : ℕ) (pu : FullPulse) (main_thread : Bool)
        (e e' : PlatformExtractor) (next : Option ℕ)
        → ledger pu.pulse_number ≡ []
        → retrieve_records texts client rounds pu main_thread true e ≡ some (e', next)
        → Sent e
        → Sent e'
    unfolding retrieve_records
    skip-Sent client rounds pu main_thread e e' next empty h s =
        let after =
          free-Sent main_thread
            (record e {
              main_pulse_data_chan =
                  e.main_pulse_data_chan ++ record { pulse = pu; records = [] } ∷ [];
            })
            (All-append IsWhole e.main_pulse_data_chan (record { pulse = pu; records = [] } ∷ []) s
              (sym empty, tt)) in
        subst Sent (ap (λ (x : PlatformExtractor × Option ℕ). x.0) (some-injective _ _ h)) after
