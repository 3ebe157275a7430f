-- ===== src/Processor/Rows.antt =====
-- What `process` promises of the rows and of the controller.
use block_explorer.Prelude.{
  ℕ, zero, suc, ◌+◌, ◌≡◌, refl, ap, ◌∙◌, inl, inr, ◌⊎◌, subst, Option, none, some, List, [], ◌∷◌,
  arith, length, get_elem?, Option-cases,
}
use block_explorer.Models.{CanonicalRecord, CanonicalJetDrop, JetDrop}
use block_explorer.Interfaces.{Storage, DbError}
use block_explorer.Controller.Register.{W, set_jet_drop_data}
use block_explorer.Controller.Register.Entries.{Has, Has-register_jet}
use block_explorer.Processor.{
  pulse_row, jet_drop_row, record_row, record_rows, ProcessError, cannot_save_pulse,
  cannot_save_jet_drop, process,
}

record_rows-get :
    (mjd : JetDrop) (i k : ℕ) (records : List CanonicalRecord) (r : CanonicalRecord)
    → get_elem? records k ≡ some r
    → get_elem? (record_rows mjd i records) k ≡ some (record_row mjd (i + k) r)
unfolding record_rows
record_rows-get mjd i k [] r e = absurd (ground arith)
record_rows-get mjd i zero (x ∷ records) r e = ground arith
record_rows-get mjd i (suc k) (x ∷ records) r e =
    record_rows-get mjd (suc i) k records r e
    ∙ ap (λ n. some (record_row mjd n r)) (let same : suc i + k ≡ i + suc k = omega arith in same)

length-record_rows :
    (mjd : JetDrop) (i : ℕ) (records : List CanonicalRecord)
    → length (record_rows mjd i records) ≡ length records
unfolding record_rows
length-record_rows mjd i [] = refl
length-record_rows mjd i (r ∷ records) = ap suc (length-record_rows mjd (suc i) records)

-- The rows of a jet drop are its records in their order: row k is made of record k, is numbered k
-- and carries the jet drop's jet id, pulse and time, and the jet drop's row counts them.
pub record_rows_lem :
    (jd : CanonicalJetDrop) (k : ℕ) (r : CanonicalRecord)
    → get_elem? jd.main_section.records k ≡ some r
    → let mjd = jet_drop_row jd in
      let rows = record_rows mjd 0 jd.main_section.records in
      (get_elem? rows k ≡ some (record_row mjd k r)) × (length rows ≡ mjd.record_amount)
unfolding jet_drop_row
record_rows_lem jd k r e = (
  subst
      (λ i.
        get_elem? (record_rows (jet_drop_row jd) 0 jd.main_section.records) k
        ≡ some (record_row (jet_drop_row jd) i r))
      (let same : 0 + k ≡ k = omega arith in same)
      (record_rows-get (jet_drop_row jd) 0 k jd.main_section.records r e),
  length-record_rows (jet_drop_row jd) 0 jd.main_section.records,
)

module _ (storage : Storage) (min_time_pulse : ℕ) where
  -- The two writes of `process`.
  abbrev pub pulse_saved :
      CanonicalJetDrop → W storage min_time_pulse → Option DbError × storage.State
  pulse_saved jd w = storage.save_pulse (pulse_row jd.main_section.start.pulse_data) w.db

  abbrev pub drop_saved :
      CanonicalJetDrop → W storage min_time_pulse → Option DbError × storage.State
  drop_saved jd w =
      storage.save_jet_drop_data (jet_drop_row jd)
        (record_rows (jet_drop_row jd) 0 jd.main_section.records)
        (pulse_row jd.main_section.start.pulse_data).pulse_number (pulse_saved jd w).1

  -- The three ways in which `process` ends.
  abbrev pub Processed :
      CanonicalJetDrop
      → W storage min_time_pulse
      → W storage min_time_pulse × Option ProcessError
      → Type 0
  Processed jd w (out, err) =
      ((e : DbError) × ((pulse_saved jd w).0 ≡ some e)
        × (err ≡ some (cannot_save_pulse e))
        × (out.db ≡ (pulse_saved jd w).1)
        × (out.controller ≡ w.controller))
      ⊎ ((e : DbError) × ((pulse_saved jd w).0 ≡ none)
          × ((drop_saved jd w).0 ≡ some e)
          × (err ≡ some (cannot_save_jet_drop e))
          × (out.db ≡ (drop_saved jd w).1)
          × (out.controller ≡ w.controller))
      ⊎ (((pulse_saved jd w).0 ≡ none)
          × ((drop_saved jd w).0 ≡ none)
          × (err ≡ none)
          × (out.db ≡ (drop_saved jd w).1)
          × Has jd.main_section.start.pulse_data jd.main_section.start.jet_drop_prefix
              out.controller.jet_drop_register)

-- A jet drop is reported to the controller only when its pulse and then its rows are saved; an
-- error of either write is returned, the writes after it are not tried and the controller keeps its
-- state.
pub process-Processed :
    (storage : Storage) (min_time_pulse : ℕ) (jd : CanonicalJetDrop) (w : W storage min_time_pulse)
    → Processed storage min_time_pulse jd w (process storage min_time_pulse jd w)
unfolding process jet_drop_row set_jet_drop_data
process-Processed storage min_time_pulse jd w =
    elim (Option-cases (pulse_saved storage min_time_pulse jd w).0) [
      | inr (e, f) ↦ rw (f, process) (inl (e, refl, refl, refl, refl))
      | inl f ↦ elim (Option-cases (drop_saved storage min_time_pulse jd w).0) [
        | inr (e, g) ↦ rw (f, g, process) (inr (inl (e, refl, refl, refl, refl, refl)))
        | inl g ↦
            rw (f, g, process)
              (inr
                (inr (refl, refl, refl, refl, Has-register_jet _ _ w.controller.jet_drop_register)))
      ]
    ]
