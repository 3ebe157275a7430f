-- ===== src/Transformer/MainNet.antt =====
-- etl/transformer/mainnet_impl.go: the goroutine of `Start` between the extractor's channel and that of
-- the jet drops, and `Stop`. An event that cannot happen is `none`.
use mathlib.Core.Option.{some-injective}
use mathlib.Core.List.{append_assoc, append-nil}
use block_explorer.Prelude.{
  ◌≡◌, refl, sym, ap, ◌∙◌, subst, inl, inr, Bool, true, false, Option, none, some, List, [], ◌∷◌,
  ◌++◌, arith, Option-cases, Bool-cases, if◌then◌else◌,
}
use block_explorer.Models.{CanonicalJetDrop}
use block_explorer.Platform.{PlatformPulseData}
use block_explorer.Transformer.{Runtime}
use block_explorer.Transformer.Records.{Ids}
use block_explorer.Transformer.Drops.{transform}

-- `stop_signal` is whether the channel of one place holds a signal; `transformer_chan` is all that was
-- sent to the channel.
pub record MainNetTransformer : Type 0 where
  pub running : Bool
  pub stop_signal : Bool
  pub transformer_chan : List CanonicalJetDrop

-- `Stop`; a round of the goroutine that receives a pulse, or the signal.
pub data Event : Type 0 where
  stops : Event
  receives : PlatformPulseData → Event
  signalled : Event

module _ (go : Runtime) (ids : Ids) where
  abbrev pub drops_of : PlatformPulseData → List CanonicalJetDrop
  drops_of jd = elim (transform go ids jd) [ none ↦ [] | some drops ↦ drops ]

  -- A pulse that gives an error is left out.
  unfoldable pub run_pulse : PlatformPulseData → MainNetTransformer → MainNetTransformer
  run_pulse jd m = elim (transform go ids jd) [
    | none ↦ m
    | some drops ↦ record m { transformer_chan = m.transformer_chan ++ drops }
  ]

  -- `needStop` takes the signal, after which the goroutine returns.
  unfoldable pub need_stop : MainNetTransformer → MainNetTransformer
  need_stop m = if m.stop_signal then record m { stop_signal = false; running = false } else m

  -- `run` puts a signal that it has received back.
  unfoldable pub step : Event → MainNetTransformer → Option MainNetTransformer
  step stops m = if m.stop_signal then none else some (record m { stop_signal = true })
  step (receives jd) m = if m.running then some (need_stop (run_pulse jd m)) else none
  step signalled m = if m.running then if m.stop_signal then some (need_stop m) else none else none

  unfoldable pub run : List Event → MainNetTransformer → Option MainNetTransformer
  run [] m = some m
  run (e ∷ events) m = elim (step e m) [ none ↦ none | some m' ↦ run events m' ]

  abbrev pub sent_of : Event → List CanonicalJetDrop
  sent_of stops = []
  sent_of (receives jd) = drops_of jd
  sent_of signalled = []

  abbrev pub all_sent : List Event → List CanonicalJetDrop
  all_sent [] = []
  all_sent (e ∷ events) = sent_of e ++ all_sent events

  need_stop_chan : (m : MainNetTransformer) → (need_stop m).transformer_chan ≡ m.transformer_chan
  unfolding need_stop
  need_stop_chan m = ground arith

  run_pulse_chan :
      (jd : PlatformPulseData) (m : MainNetTransformer)
      → (run_pulse jd m).transformer_chan ≡ m.transformer_chan ++ drops_of jd
  unfolding run_pulse
  run_pulse_chan jd m = elim (Option-cases (transform go ids jd)) [
    | inl e ↦ rw (e, run_pulse, drops_of) (sym (append-nil _))
    | inr (drops, e) ↦ rw (e, run_pulse, drops_of) refl
  ]

  step_chan :
      (e : Event) (m m' : MainNetTransformer)
      → step e m ≡ some m'
      → m'.transformer_chan ≡ m.transformer_chan ++ sent_of e
  unfolding step
  step_chan stops m m' h = elim (Bool-cases m.stop_signal) [
    | inl b ↦ absurd (ground arith)
    | inr b ↦
        let same : m.transformer_chan ≡ m'.transformer_chan = ground arith in
        sym same ∙ sym (append-nil _)
  ]
  step_chan (receives jd) m m' h = elim (Bool-cases m.running) [
    | inr b ↦ absurd (ground arith)
    | inl b ↦
        let same : need_stop (run_pulse jd m) ≡ m' = ground arith in
        subst (λ (x : MainNetTransformer). x.transformer_chan ≡ m.transformer_chan ++ drops_of jd)
          same (need_stop_chan (run_pulse jd m) ∙ run_pulse_chan jd m)
  ]
  step_chan signalled m m' h = elim (Bool-cases m.running) [
    | inr b ↦ absurd (ground arith)
    | inl b ↦ elim (Bool-cases m.stop_signal) [
      | inr c ↦ absurd (ground arith)
      | inl c ↦
          let same : need_stop m ≡ m' = ground arith in
          subst (λ (x : MainNetTransformer). x.transformer_chan ≡ m.transformer_chan ++ []) same
            (need_stop_chan m ∙ sym (append-nil _))
    ]
  ]

  -- The jet drops of the received pulses go to the channel in the order of the pulses, each pulse once,
  -- and those of a pulse stay together; a pulse that gives an error gives none.
  pub run_chan :
      (events : List Event) (m m' : MainNetTransformer)
      → run events m ≡ some m'
      → m'.transformer_chan ≡ m.transformer_chan ++ all_sent events
  unfolding run
  run_chan [] m m' h =
      sym (ap (λ (x : MainNetTransformer). x.transformer_chan) (some-injective m m' h))
      ∙ sym (append-nil _)
  run_chan (e ∷ events) m m' h = elim (Option-cases (step e m)) [
    | inl f ↦ absurd (ground arith)
    | inr (mid, f) ↦
        run_chan events mid m' (rw (f, run) at h)
        ∙ ap (λ l. l ++ all_sent events) (step_chan e m mid f)
        ∙ append_assoc m.transformer_chan (sent_of e) (all_sent events)
  ]

  -- After `Stop` the goroutine makes one more round at most: every other event that happens is its last.
  pub stops_after_round :
      (e : Event) (m m' : MainNetTransformer)
      → m.stop_signal ≡ true
      → step e m ≡ some m'
      → (m'.running ≡ false) × (m'.transformer_chan ≡ m.transformer_chan ++ sent_of e)
  unfolding step need_stop run_pulse
  stops_after_round e m m' s h = (last e h, step_chan e m m' h)
    where
      last : (e : Event) → step e m ≡ some m' → m'.running ≡ false
      last stops h = absurd (ground arith)
      last signalled h = ground arith
      last (receives jd) h = elim (Option-cases (transform go ids jd)) [
        | inl f ↦ ground arith
        | inr (drops, f) ↦ ground arith
      ]
