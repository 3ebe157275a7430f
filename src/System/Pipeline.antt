-- ===== src/System/Pipeline.antt =====
-- The system fed by the transformer.
use block_explorer.Prelude.{
  ℕ, ◌≡◌, true, none, some, List, [], ◌∷◌, Text, ℤ, In, All, all, arith, nat_eq,
}
use block_explorer.Models.{CanonicalJetDrop}
use block_explorer.Models.JetDropId.{is_bit}
use block_explorer.Platform.{PlatformPulseData}
use block_explorer.Interfaces.{Storage, SavedLaws}
use block_explorer.Transformer.{Runtime}
use block_explorer.Transformer.Records.{Ids}
use block_explorer.Transformer.Drops.{transform}
use block_explorer.Transformer.Drops.Names.{transformed-AreBits}
use block_explorer.Controller.Completeness.Covering.{IsBits}
use block_explorer.Controller.Register.{W, completes}
use block_explorer.Controller.Sequence.{start}
use block_explorer.System.{Event, processes, begins, ends, looks, moves_on, Sys, run}
use block_explorer.System.Saved.{IsNamed, IsCovered}
use block_explorer.System.Restart.{ReadLaws, completed_is_saved}

module _ (go : Runtime) (ids : Ids) where
  -- The processed jet drop is one of those that `Transform` makes of a pulse of the platform.
  abbrev pub FromTransformer : Event → Type 0
  FromTransformer (processes d) =
      (pulse : PlatformPulseData) × (drops : List CanonicalJetDrop) × (transform go ids pulse
        ≡ some drops)
      × In d drops
  FromTransformer _ = Unit

  is_bit-IsBits : (s : Text) → all is_bit s ≡ true → IsBits s
  is_bit-IsBits [] h = tt
  is_bit-IsBits (c ∷ s) h = ((ground arith), is_bit-IsBits s (ground arith))

  FromTransformer-IsNamed : (event : Event) → FromTransformer event → IsNamed event
  FromTransformer-IsNamed (processes d) (pulse, drops, e, m) =
      is_bit-IsBits d.main_section.start.jet_drop_prefix
        (transformed-AreBits go ids pulse drops d e m)
  FromTransformer-IsNamed begins h = tt
  FromTransformer-IsNamed ends h = tt
  FromTransformer-IsNamed (looks now) h = tt
  FromTransformer-IsNamed (moves_on now) h = tt

  All-IsNamed : (events : List Event) → All FromTransformer events → All IsNamed events
  All-IsNamed [] h = tt
  All-IsNamed (event ∷ events) h = (FromTransformer-IsNamed event h.0, All-IsNamed events h.1)

  -- However the processing of the transformer's jet drops, the rounds of the register and those of the
  -- sequence interleave after `Start`, which finds an empty register: each pulse that the storage is
  -- asked to mark complete has saved jet drops that cover the whole tree of jets. The storage keeps
  -- what it saves without an error, and returns only saved jet drops, named by bits.
  pub completed_pulses_are_saved :
      (storage : Storage) (IsSaved : ℤ → Text → storage.State → Type 0)
      (laws : SavedLaws storage IsSaved) (reads : ReadLaws storage IsSaved) (min_time_pulse : ℕ)
      (events : List Event) (w : W storage min_time_pulse) (out : Sys storage min_time_pulse)
      (n : ℤ)
      → w.calls ≡ []
      → w.controller.jet_drop_register ≡ []
      → All FromTransformer events
      → run storage min_time_pulse events
          (record { world = (start storage min_time_pulse w).0; round = none })
        ≡ some out
      → In (completes n) out.world.calls
      → IsCovered storage IsSaved out.world.db n
  completed_pulses_are_saved storage IsSaved laws reads min_time_pulse events w out n fresh empty
        made e m =
      completed_is_saved storage IsSaved laws reads min_time_pulse events w out n fresh empty
        (All-IsNamed events made) e m
