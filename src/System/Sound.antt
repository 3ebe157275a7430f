-- ===== src/System/Sound.antt =====
-- The steps of the system, and its runs.
use block_explorer.Prelude.{
  ℕ, ◌≡◌, inl, inr, Option, none, some, List, [], ◌∷◌, Text, arith, ℤ, In, All, Option-cases, subst,
}
use block_explorer.Models.{pulse_data_eq}
use block_explorer.Interfaces.{Storage, SavedLaws}
use block_explorer.Controller.Register.{Register, W, completes, erase_entry}
use block_explorer.Controller.Register.Erasing.{some-inj}
use block_explorer.Processor.{process}
use block_explorer.System.{
  Event, processes, begins, ends, looks, moves_on, Sys, looked, begun, look, ended, step, run,
}
use block_explorer.System.Quiet.{pulse_sequence_round-IsQuiet, count_round-IsQuiet}
use block_explorer.System.Saved.{
  IsNamed, copy_of, IsBacked, IsCovered, IsSound, quiet, process-Moved, process-IsSound,
  looked-IsSound,
}

module _ (storage : Storage) (IsSaved : ℤ → Text → storage.State → Type 0)
    (laws : SavedLaws storage IsSaved) (min_time_pulse : ℕ) where
  begun-IsSound :
      (w : W storage min_time_pulse) (r : Option Register) (out : Sys storage min_time_pulse)
      → IsSound storage IsSaved laws min_time_pulse (record { world = w; round = r })
      → begun storage min_time_pulse w r ≡ some out
      → IsSound storage IsSaved laws min_time_pulse out
  unfolding begun
  begun-IsSound w (some copy) out h e = absurd (ground arith)
  begun-IsSound w none out h e =
      subst (IsSound storage IsSaved laws min_time_pulse) (some-inj e)
        (record { registered = h.registered; copied = h.registered; covered = h.covered })

  look-IsSound :
      (now : ℕ) (w : W storage min_time_pulse) (r : Option Register)
      (out : Sys storage min_time_pulse)
      → IsSound storage IsSaved laws min_time_pulse (record { world = w; round = r })
      → look storage min_time_pulse now w r ≡ some out
      → IsSound storage IsSaved laws min_time_pulse out
  unfolding look
  look-IsSound now w none out h e = absurd (ground arith)
  look-IsSound now w (some []) out h e = absurd (ground arith)
  look-IsSound now w (some ((p, d) ∷ copy)) out h e =
      elim (Option-cases (erase_entry storage min_time_pulse now (p, d) w)) [
        | inl f ↦ let wrong : none ≡ some out = rw (f, look) at e in absurd (ground arith)
        | inr (v, f) ↦
            let same : looked storage min_time_pulse copy (some v) ≡ some out = rw (f, look) at e in
            subst (IsSound storage IsSaved laws min_time_pulse) (some-inj same)
              (looked-IsSound storage IsSaved laws min_time_pulse now p d copy w v h f)
      ]

  ended-IsSound :
      (w : W storage min_time_pulse) (r : Option Register) (out : Sys storage min_time_pulse)
      → IsSound storage IsSaved laws min_time_pulse (record { world = w; round = r })
      → ended storage min_time_pulse w r ≡ some out
      → IsSound storage IsSaved laws min_time_pulse out
  unfolding ended
  ended-IsSound w none out h e = absurd (ground arith)
  ended-IsSound w (some (x ∷ copy)) out h e = absurd (ground arith)
  ended-IsSound w (some []) out h e =
      subst (IsSound storage IsSaved laws min_time_pulse) (some-inj e) (
        quiet storage IsSaved laws min_time_pulse (record { world = w; round = none }) _
          (record {
            registered = h.registered;
            copied = λ p d j m k. absurd m;
            covered = h.covered;
          })
          (count_round-IsQuiet storage IsSaved laws min_time_pulse w))

  step-IsSound :
      (event : Event) (s out : Sys storage min_time_pulse)
      → IsNamed event
      → IsSound storage IsSaved laws min_time_pulse s
      → step storage min_time_pulse event s ≡ some out
      → IsSound storage IsSaved laws min_time_pulse out
  unfolding step
  step-IsSound (processes jd) s out bits h e =
      subst (IsSound storage IsSaved laws min_time_pulse) (some-inj e) (
        process-IsSound storage IsSaved laws min_time_pulse jd s
          (process storage min_time_pulse jd s.world).0 bits h
          (process-Moved storage IsSaved laws min_time_pulse jd s.world))
  step-IsSound (moves_on now) s out bits h e =
      subst (IsSound storage IsSaved laws min_time_pulse) (some-inj e) (
        quiet storage IsSaved laws min_time_pulse s _ h
          (pulse_sequence_round-IsQuiet storage IsSaved laws min_time_pulse now s.world))
  step-IsSound begins s out bits h e = begun-IsSound s.world s.round out h e
  step-IsSound ends s out bits h e = ended-IsSound s.world s.round out h e
  step-IsSound (looks now) s out bits h e = look-IsSound now s.world s.round out h e

  run-IsSound :
      (events : List Event) (s out : Sys storage min_time_pulse)
      → All IsNamed events
      → IsSound storage IsSaved laws min_time_pulse s
      → run storage min_time_pulse events s ≡ some out
      → IsSound storage IsSaved laws min_time_pulse out
  unfolding run
  run-IsSound [] s out bits h e = subst (IsSound storage IsSaved laws min_time_pulse) (some-inj e) h
  run-IsSound (event ∷ events) s out bits h e =
      elim (Option-cases (step storage min_time_pulse event s)) [
        | inl f ↦ let wrong : none ≡ some out = rw (f, run) at e in absurd (ground arith)
        | inr (mid, f) ↦
            run-IsSound events mid out bits.1 (step-IsSound event s mid bits.0 h f)
              (rw (f, run) at e)
      ]

-- From any start between two rounds with no calls and a backed register.
pub run-IsCovered :
    (storage : Storage) (IsSaved : ℤ → Text → storage.State → Type 0)
    (laws : SavedLaws storage IsSaved) (min_time_pulse : ℕ) (events : List Event)
    (s out : Sys storage min_time_pulse) (n : ℤ)
    → s.round ≡ none
    → s.world.calls ≡ []
    → IsBacked storage IsSaved s.world.db s.world.controller.jet_drop_register
    → All IsNamed events
    → run storage min_time_pulse events s ≡ some out
    → In (completes n) out.world.calls
    → IsCovered storage IsSaved out.world.db n
run-IsCovered storage IsSaved laws min_time_pulse events s out n idle fresh backed bits e m =
    let start : IsSound storage IsSaved laws min_time_pulse s = record {
      registered = backed;
      copied = λ p d j k i. absurd (subst (λ r. In (p, d) (copy_of r)) idle k);
      covered = λ k i. absurd (subst (In (completes k)) fresh i);
    } in
    (run-IsSound storage IsSaved laws min_time_pulse events s out bits start e).covered n m
