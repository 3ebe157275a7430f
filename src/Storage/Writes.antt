-- ===== src/Storage/Writes.antt =====
-- etl/storage/storage.go: the writes. The statements are gorm's, so they are a parameter; so is the
-- commit of a transaction. A transaction that ends with an error is rolled back.
pub mod Transactions
pub mod Keeping
use block_explorer.Prelude.{
  ℕ, zero, suc, ◌≡◌, Bool, true, false, Option, none, some, List, [], ◌∷◌, ℤ, length, ◌==◌, nat_eq,
  if◌then◌else◌,
}
use block_explorer.Models.{Record, JetDrop, Pulse}
use block_explorer.Interfaces.{DbError}

-- The messages of the writes.
pub data WriteError : Type 0 where
  saving_jet_drop saving_record updating_pulse committing saving_pulse updating :
      DbError → WriteError
  not_existing_pulse several_rows : ℤ → WriteError

-- gorm's statements. The last two tell how many rows they have changed.
pub record Statements : Type 1 where
  pub State : Type 0
  pub create_jet_drop : JetDrop → State → Option DbError × State
  pub save_jet_drop : JetDrop → State → Option DbError × State
  pub save_record : Record → State → Option DbError × State
  pub add_amounts : ℤ → ℕ → State → Option DbError × State
  pub upsert_pulse : Pulse → State → Option DbError × State
  pub set_complete : ℤ → State → (Option DbError × ℕ) × State
  pub set_sequential : ℤ → State → (Option DbError × ℕ) × State
  pub commit : State → Option DbError × State

abbrev pub wrapped : (DbError → WriteError) → Option DbError → Option WriteError
wrapped message none = none
wrapped message (some e) = some (message e)

-- `strings.Contains(err.Error(), "error while saving jetDrop")`
abbrev pub while_saving_jet_drop : WriteError → Bool
while_saving_jet_drop (saving_jet_drop e) = true
while_saving_jet_drop _ = false

module _ (sql : Statements) where
  abbrev pub Write : Type 0
  Write = sql.State → Option WriteError × sql.State

  -- One statement after another: the second only if the first gives no error.
  unfoldable pub and_then : Write → Write → Write
  and_then first second s = elim (first s).0 [
    | some e ↦ (some e, (first s).1)
    | none ↦ second (first s).1
  ]

  abbrev pub statement : (DbError → WriteError) → (sql.State → Option DbError × sql.State) → Write
  statement message run s = (wrapped message (run s).0, (run s).1)

  -- gorm's `Transaction`
  unfoldable pub transaction : Write → Write
  transaction body s = elim (body s).0 [
    | some e ↦ (some e, s)
    | none ↦ elim (sql.commit (body s).1).0 [
      | some e ↦ (some (committing e), s)
      | none ↦ (none, (sql.commit (body s).1).1)
    ]
  ]

  unfoldable pub save_records : List Record → Write
  save_records [] s = (none, s)
  save_records (r ∷ records) s =
      and_then (statement saving_record (sql.save_record r)) (save_records records) s

  unfoldable pub init_jd : JetDrop → List Record → ℤ → Write
  init_jd jet_drop records pulse_number = transaction (
      and_then (statement saving_jet_drop (sql.create_jet_drop jet_drop)) (
        and_then (save_records records)
          (statement updating_pulse (sql.add_amounts pulse_number (length records)))))

  unfoldable pub update_jd : JetDrop → List Record → Write
  update_jd jet_drop records =
      transaction
        (and_then (statement saving_jet_drop (sql.save_jet_drop jet_drop)) (save_records records))

  -- SaveJetDropData
  unfoldable pub save_jet_drop_data : JetDrop → List Record → ℤ → Write
  save_jet_drop_data jet_drop records pulse_number s =
      elim (init_jd jet_drop records pulse_number s).0 [
        | none ↦ (none, (init_jd jet_drop records pulse_number s).1)
        | some e ↦
            if while_saving_jet_drop e
            then update_jd jet_drop records (init_jd jet_drop records pulse_number s).1
            else (some e, (init_jd jet_drop records pulse_number s).1)
      ]

  -- SavePulse
  unfoldable pub save_pulse : Pulse → Write
  save_pulse p = statement saving_pulse (sql.upsert_pulse p)

  -- Exactly one row has to change.
  abbrev pub one_row : ℤ → (sql.State → (Option DbError × ℕ) × sql.State) → Write
  one_row pulse_number update s = elim (update s).0.0 [
    | some e ↦ (some (updating e), (update s).1)
    | none ↦
        if (update s).0.1 == 0
        then (some (not_existing_pulse pulse_number), (update s).1)
        else if (update s).0.1 == 1
        then (none, (update s).1)
        else (some (several_rows pulse_number), (update s).1)
  ]

  -- CompletePulse and SequencePulse
  unfoldable pub complete_pulse : ℤ → Write
  complete_pulse pulse_number = transaction (one_row pulse_number (sql.set_complete pulse_number))

  unfoldable pub sequence_pulse : ℤ → Write
  sequence_pulse pulse_number = transaction (one_row pulse_number (sql.set_sequential pulse_number))
