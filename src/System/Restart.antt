-- ===== src/System/Restart.antt =====
-- The system from `Start` on: the register is filled with what the storage has of the pulses that are
-- not complete, and then the goroutines run.
use block_explorer.Prelude.{
  ℕ, ◌≡◌, refl, ap, ◌∙◌, inl, inr, none, some, List, [], ◌∷◌, Text, ℤ, In, All, insert,
  Option-cases, subst,
}
use block_explorer.Models.{Pulse, PulseData, pulse_data_eq, JetDrop}
use block_explorer.Interfaces.{Storage, SavedLaws}
use block_explorer.Controller.Completeness.Covering.{IsBits}
use block_explorer.Controller.Register.{Register, W, completes, register_jet, restart_key}
use block_explorer.Controller.Register.Erasing.{R}
use block_explorer.Controller.Register.Members.{insert-cases}
use block_explorer.Controller.Sequence.{
  register_drops, register_pulses, set_incomplete_pulses, set_seq_pulse, start,
}
use block_explorer.System.{Event, Sys, run}
use block_explorer.System.Saved.{IsNamed, IsBacked, IsCovered, register_jet-IsBacked}
use block_explorer.System.Sound.{run-IsCovered}

-- The jet drops that the storage returns of a pulse are saved ones, and named by bits.
pub record ReadLaws (storage : Storage) (IsSaved : ℤ → Text → storage.State → Type 0) : Type 0 where
  pub named :
      (p : Pulse) (db : storage.State) (d : JetDrop)
      → In d (storage.get_jet_drops p db).0
      → IsBits d.jet_id × IsSaved p.pulse_number d.jet_id db

module _ (storage : Storage) (IsSaved : ℤ → Text → storage.State → Type 0)
    (laws : SavedLaws storage IsSaved) (reads : ReadLaws storage IsSaved) (min_time_pulse : ℕ) where
  abbrev B : storage.State → Register → Type 0
  B = IsBacked storage IsSaved

  register_drops-IsBacked :
      (db : storage.State) (key : PulseData) (drops : List JetDrop) (r : Register)
      → ((d : JetDrop) → In d drops → IsBits d.jet_id × IsSaved key.pulse_no d.jet_id db)
      → B db r
      → B db (register_drops storage min_time_pulse key drops r)
  unfolding register_drops
  register_drops-IsBacked db key [] r own h = h
  register_drops-IsBacked db key (x ∷ drops) r own h =
      register_drops-IsBacked db key drops (register_jet key x.jet_id r) (λ d m. own d (inr m))
        (register_jet-IsBacked storage IsSaved laws min_time_pulse db key x.jet_id r
          (own x (inl refl)) h)

  -- An entry that begins empty.
  insert-IsBacked :
      (db : storage.State) (key : PulseData) (r : Register) → B db r → B db (insert key [] r)
  insert-IsBacked db key r h p d j m k = elim (insert-cases (p, d) key [] r m) [
    | inl old ↦ h p d j old k
    | inr e ↦ absurd (subst (In j) (ap (λ (x : PulseData × List Text). x.1) e) k)
  ]

  register_pulses-IsBacked :
      (db : storage.State) (pulses : List Pulse) (r : Register)
      → B db r
      → B db (register_pulses storage min_time_pulse db pulses r).0
  unfolding register_pulses restart_key
  register_pulses-IsBacked db [] r h = h
  register_pulses-IsBacked db (q ∷ pulses) r h =
      let empty = insert-IsBacked db (restart_key q) r h in
      elim (Option-cases (storage.get_jet_drops q db).1) [
        | inl f ↦
            rw (f, register_pulses)
              (register_pulses-IsBacked db pulses _ (
                register_drops-IsBacked db (restart_key q) (storage.get_jet_drops q db).0 _
                  (reads.named q db) empty))
        | inr (x, f) ↦ rw (f, register_pulses) empty
      ]

  -- What `Start` leaves: the database and the calls as they were, and a backed register.
  abbrev Started : W storage min_time_pulse → W storage min_time_pulse → Type 0
  Started w out =
      (out.calls ≡ w.calls)
      × (B out.db (R storage min_time_pulse w) → B out.db (R storage min_time_pulse out))

  set_incomplete-Started :
      (w : W storage min_time_pulse) → Started w (set_incomplete_pulses storage min_time_pulse w).0
  unfolding set_incomplete_pulses
  set_incomplete-Started w = elim (Option-cases (storage.get_incomplete_pulses w.db).1) [
    | inl e ↦ rw (e, set_incomplete_pulses) (refl, λ h. register_pulses-IsBacked w.db _ _ h)
    | inr (x, e) ↦ rw (e, set_incomplete_pulses) (refl, λ h. h)
  ]

  start-Started : (w : W storage min_time_pulse) → Started w (start storage min_time_pulse w).0
  unfolding start set_seq_pulse
  start-Started w =
      let first = set_incomplete-Started w in
      elim (Option-cases (set_incomplete_pulses storage min_time_pulse w).1) [
        | inl e ↦ rw (e, start) first
        | inr (x, e) ↦ rw (e, start) first
      ]

-- However the processor, the rounds of the register and those of the sequence interleave after
-- `Start`, which finds an empty register: when the names of the processed jet drops are bits, each
-- pulse that is completed has saved jet drops that cover the whole tree of jets.
pub completed_is_saved :
    (storage : Storage) (IsSaved : ℤ → Text → storage.State → Type 0)
    (laws : SavedLaws storage IsSaved) (reads : ReadLaws storage IsSaved) (min_time_pulse : ℕ)
    (events : List Event) (w : W storage min_time_pulse) (out : Sys storage min_time_pulse) (n : ℤ)
    → w.calls ≡ []
    → w.controller.jet_drop_register ≡ []
    → All IsNamed events
    → run storage min_time_pulse events
        (record { world = (start storage min_time_pulse w).0; round = none })
      ≡ some out
    → In (completes n) out.world.calls
    → IsCovered storage IsSaved out.world.db n
completed_is_saved storage IsSaved laws reads min_time_pulse events w out n fresh empty bits e m =
    let (calls, backed) = start-Started storage IsSaved laws reads min_time_pulse w in
    let nothing : IsBacked storage IsSaved (start storage min_time_pulse w).0.db
        w.controller.jet_drop_register =
      λ p d j k i. absurd (subst (In (p, d)) empty k) in
    run-IsCovered storage IsSaved laws min_time_pulse events
      (record { world = (start storage min_time_pulse w).0; round = none }) out n refl
      (calls ∙ fresh) (backed nothing) bits e m
