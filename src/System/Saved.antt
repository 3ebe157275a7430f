-- ===== src/System/Saved.antt =====
-- A pulse is completed only when the storage has its jet drops.
use block_explorer.Prelude.{
  ℕ, ◌≡◌, refl, sym, ◌⊎◌, inl, inr, true, Option, none, some, List, [], ◌∷◌, ◌++◌, Text, arith, ℤ,
  In, Option-cases, subst,
}
use block_explorer.Models.{PulseData, pulse_data_eq, CanonicalJetDrop}
use block_explorer.Interfaces.{Storage, SavedLaws, DbError}
use block_explorer.Controller.Completeness.{pulse_is_complete}
use block_explorer.Controller.Completeness.Covering.{Covers, IsBits, pulse_is_complete_sound}
use block_explorer.Controller.Register.{
  Register, W, completes, completed, erase_entry, set_jet_drop_data, register_jet,
}
use block_explorer.Controller.Register.Erasing.{R, erase_entry-Ends}
use block_explorer.Controller.Register.Members.{In-append, delete-In, register_jet-cases}
use block_explorer.Processor.{jet_drop_row, process}
use block_explorer.Processor.Rows.{pulse_saved, drop_saved}
use block_explorer.System.{Event, processes, Sys}
use block_explorer.System.Quiet.{Grows, IsQuiet, reload_data-IsQuiet}

-- The name of a jet drop is made of bits.
abbrev pub IsNamed : Event → Type 0
IsNamed (processes jd) = IsBits jd.main_section.start.jet_drop_prefix
IsNamed _ = Unit

abbrev pub copy_of : Option Register → Register
copy_of none = []
copy_of (some r) = r

module _ (storage : Storage) (IsSaved : ℤ → Text → storage.State → Type 0) where
  -- Each jet id of the register is made of bits and names a saved jet drop of its pulse.
  abbrev pub IsBacked : storage.State → Register → Type 0
  IsBacked db r =
      (p : PulseData) (d : List Text) (j : Text)
      → In (p, d) r
      → In j d
      → IsBits j × IsSaved p.pulse_no j db

  -- Saved jet drops of the pulse cover the whole tree of jets.
  abbrev pub IsCovered : storage.State → ℤ → Type 0
  IsCovered db n = (d : List Text) × Covers d × ((j : Text) → In j d → IsSaved n j db)

module _ (storage : Storage) (IsSaved : ℤ → Text → storage.State → Type 0)
    (laws : SavedLaws storage IsSaved) (min_time_pulse : ℕ) where
  -- A report of a saved jet drop.
  pub register_jet-IsBacked :
      (db : storage.State) (q : PulseData) (i : Text) (r : Register)
      → IsBits i × IsSaved q.pulse_no i db
      → IsBacked storage IsSaved db r
      → IsBacked storage IsSaved db (register_jet q i r)
  register_jet-IsBacked db q i r own h p d j m k = elim (register_jet-cases q p i j d r m k) [
    | inl (c, m', k') ↦ h p c j m' k'
    | inr (same, named) ↦ (
      subst IsBits (sym named) own.0,
      subst (λ t. IsSaved p.pulse_no t db) (sym named)
          (subst (λ (x : PulseData). IsSaved x.pulse_no i db) (sym same) own.1),
    )
  ]

  pub record IsSound (s : Sys storage min_time_pulse) : Type 0 where
    pub registered : IsBacked storage IsSaved s.world.db (R storage min_time_pulse s.world)
    pub copied : IsBacked storage IsSaved s.world.db (copy_of s.round)
    pub covered : (n : ℤ) → In (completes n) s.world.calls → IsCovered storage IsSaved s.world.db n

  IsBacked-still :
      (db db' : storage.State) (r : Register)
      → Grows storage IsSaved laws min_time_pulse db db'
      → IsBacked storage IsSaved db r
      → IsBacked storage IsSaved db' r
  IsBacked-still db db' r g h p d j m k = ((h p d j m k).0, g p.pulse_no j (h p d j m k).1)

  IsCovered-still :
      (db db' : storage.State) (n : ℤ)
      → Grows storage IsSaved laws min_time_pulse db db'
      → IsCovered storage IsSaved db n
      → IsCovered storage IsSaved db' n
  IsCovered-still db db' n g (d, c, h) = (d, c, λ j m. g n j (h j m))

  pub quiet :
      (s : Sys storage min_time_pulse) (out : W storage min_time_pulse)
      → IsSound s
      → IsQuiet storage IsSaved laws min_time_pulse s.world out
      → IsSound (record s { world = out })
  quiet s out h q = record {
    registered = λ p d j m k.
        IsBacked-still s.world.db out.db _ q.grows h.registered p d j (q.entries (p, d) m) k;
    copied = IsBacked-still s.world.db out.db (copy_of s.round) q.grows h.copied;
    covered = λ n m. IsCovered-still s.world.db out.db n q.grows (h.covered n (q.completions n m));
  }

  -- A jet drop that is processed is not registered, or saved and registered.
  abbrev Moved : CanonicalJetDrop → W storage min_time_pulse → W storage min_time_pulse → Type 0
  Moved jd w out =
      let start = jd.main_section.start in
      Grows storage IsSaved laws min_time_pulse w.db out.db
      × (out.calls ≡ w.calls)
      × ((R storage min_time_pulse out ≡ R storage min_time_pulse w)
          ⊎ ((R storage min_time_pulse out
                ≡ register_jet start.pulse_data start.jet_drop_prefix (R storage min_time_pulse w))
              × IsSaved start.pulse_data.pulse_no start.jet_drop_prefix out.db))

  pub process-Moved :
      (jd : CanonicalJetDrop) (w : W storage min_time_pulse)
      → Moved jd w (process storage min_time_pulse jd w).0
  unfolding process jet_drop_row set_jet_drop_data
  process-Moved jd w = elim (Option-cases (pulse_saved storage min_time_pulse jd w).0) [
    | inr (e, f) ↦ rw (f, process) (pulse_kept, refl, inl refl)
    | inl f ↦ elim (Option-cases (drop_saved storage min_time_pulse jd w).0) [
      | inr (e, g) ↦ rw (f, g, process) (all_kept, refl, inl refl)
      | inl g ↦ rw (f, g, process) (all_kept, refl, inr (refl, laws.saved _ _ _ _ g))
    ]
  ]
    where
      pulse_kept :
          Grows storage IsSaved laws min_time_pulse w.db (pulse_saved storage min_time_pulse jd w).1
      pulse_kept m j h = laws.save_pulse_keeps _ w.db m j h

      all_kept :
          Grows storage IsSaved laws min_time_pulse w.db (drop_saved storage min_time_pulse jd w).1
      all_kept m j h = laws.save_jet_drop_data_keeps _ _ _ _ m j (pulse_kept m j h)

  pub process-IsSound :
      (jd : CanonicalJetDrop) (s : Sys storage min_time_pulse) (out : W storage min_time_pulse)
      → IsBits jd.main_section.start.jet_drop_prefix
      → IsSound s
      → Moved jd s.world out
      → IsSound (record s { world = out })
  process-IsSound jd s out bits h (g, calls, inl same) = quiet s out h (record {
    grows = g;
    entries = λ x m. subst (In x) same m;
    completions = λ n m. subst (In (completes n)) calls m;
  })
  process-IsSound jd s out bits h (g, calls, inr (more, own)) = record {
    registered = λ p d j m k.
        register_jet-IsBacked out.db _ _ (R storage min_time_pulse s.world) (bits, own)
          (IsBacked-still s.world.db out.db _ g h.registered) p d j (subst (In (p, d)) more m) k;
    copied = IsBacked-still s.world.db out.db (copy_of s.round) g h.copied;
    covered = λ n m.
        IsCovered-still s.world.db out.db n g (h.covered n (subst (In (completes n)) calls m));
  }

  completed-IsSound :
      (p : PulseData) (d : List Text) (copy : Register) (answer : Option DbError × storage.State)
      (w : W storage min_time_pulse)
      → IsBacked storage IsSaved w.db ((p, d) ∷ copy)
      → pulse_is_complete d ≡ some true
      → Grows storage IsSaved laws min_time_pulse w.db answer.1
      → IsSound (record { world = w; round = some ((p, d) ∷ copy) })
      → IsSound (record { world = completed storage min_time_pulse p answer w; round = some copy })
  unfolding completed
  completed-IsSound p d copy answer w backed passes g h = done answer g
    where
      now_covered :
          (db : storage.State)
          → Grows storage IsSaved laws min_time_pulse w.db db
          → (n : ℤ) → In (completes n) (w.calls ++ completes p.pulse_no ∷ [])
          → IsCovered storage IsSaved db n
      now_covered db g n m = elim (In-append (completes n) w.calls (completes p.pulse_no ∷ []) m) [
        | inl old ↦ IsCovered-still w.db db n g (h.covered n old)
        | inr (inr k) ↦ absurd k
        | inr (inl e) ↦
            let own : n ≡ p.pulse_no = ground arith in
            (
              d,
              pulse_is_complete_sound d (λ j k. (backed p d j (inl refl) k).0) passes,
              λ j k.
                  subst (λ i. IsSaved i j db) (sym own)
                    (g p.pulse_no j (backed p d j (inl refl) k).1),
            )
      ]

      done :
          (answer : Option DbError × storage.State)
          → Grows storage IsSaved laws min_time_pulse w.db answer.1
          → IsSound
              (record { world = completed storage min_time_pulse p answer w; round = some copy })
      done (none, db) g = record {
        registered = λ q c j m k.
            IsBacked-still w.db db (R storage min_time_pulse w) g h.registered q c j
              (delete-In (q, c) p (R storage min_time_pulse w) m) k;
        copied = λ q c j m k. IsBacked-still w.db db ((p, d) ∷ copy) g backed q c j (inr m) k;
        covered = now_covered db g;
      }
      done (some e, db) g = record {
        registered = λ q c j m k.
            IsBacked-still w.db db (R storage min_time_pulse w) g h.registered q c j m k;
        copied = λ q c j m k. IsBacked-still w.db db ((p, d) ∷ copy) g backed q c j (inr m) k;
        covered = now_covered db g;
      }

  pub looked-IsSound :
      (now : ℕ) (p : PulseData) (d : List Text) (copy : Register) (w out : W storage min_time_pulse)
      → IsSound (record { world = w; round = some ((p, d) ∷ copy) })
      → erase_entry storage min_time_pulse now (p, d) w ≡ some out
      → IsSound (record { world = out; round = some copy })
  looked-IsSound now p d copy w out h e =
      elim (erase_entry-Ends storage min_time_pulse now p d w out e) [
        | inl (passes, same) ↦
            subst (λ v. IsSound (record { world = v; round = some copy })) (sym same)
              (completed-IsSound p d copy (storage.complete_pulse p.pulse_no w.db) w h.copied passes
                (laws.complete_pulse_keeps p.pulse_no w.db) h)
        | inr (fails, inl same) ↦
            subst (λ v. IsSound (record { world = v; round = some copy })) (sym same) rest
        | inr (fails, inr same) ↦
            subst (λ v. IsSound (record { world = v; round = some copy })) (sym same)
              (quiet (record { world = w; round = some copy }) _ rest
                (reload_data-IsQuiet storage IsSaved laws min_time_pulse now p.prev_pulse_number
                  p.pulse_no w))
      ]
    where
      rest : IsSound (record { world = w; round = some copy })
      rest = record {
        registered = h.registered;
        copied = λ q c j m k. h.copied q c j (inr m) k;
        covered = h.covered;
      }
