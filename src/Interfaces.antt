-- ===== src/Interfaces.antt =====
-- etl/interfaces/interfaces.go: the storage as its clients see it. A method that returns a value
-- and an error returns both, as in Go. `PrevLaws` is what the pulse loop relies on of one query.
use block_explorer.Prelude.{◌≡◌, Bool, true, List, Option, none, some, ℤ, Text}
use block_explorer.Models.{Pulse, JetDrop, Record, empty_pulse}

-- gorm.ErrRecordNotFound, or any other failure of the database.
pub data DbError : Type 0 where
  record_not_found failed : DbError

-- `gorm.IsRecordNotFoundError(err)` of an error that is not nil.
unfoldable pub is_failure : Option DbError → Bool
is_failure none = Bool.false
is_failure (some record_not_found) = Bool.false
is_failure (some failed) = true

pub record Storage : Type 1 where
  pub State : Type 0
  pub save_jet_drop_data : JetDrop → List Record → ℤ → State → Option DbError × State
  pub save_pulse : Pulse → State → Option DbError × State
  pub complete_pulse : ℤ → State → Option DbError × State
  pub sequence_pulse : ℤ → State → Option DbError × State
  pub get_incomplete_pulses : State → List Pulse × Option DbError
  pub get_sequential_pulse : State → Pulse × Option DbError
  pub get_pulse_by_prev : Pulse → State → Pulse × Option DbError
  pub get_next_saved_pulse : Pulse → Bool → State → Pulse × Option DbError
  pub get_jet_drops : Pulse → State → List JetDrop × Option DbError

-- The row that a query finds meets its condition, and a row that is not found is Go's zero value.
pub record PrevLaws (storage : Storage) : Type 0 where
  pub found :
      (p : Pulse) (s : storage.State)
      → (storage.get_pulse_by_prev p s).1 ≡ none
      → (storage.get_pulse_by_prev p s).0.prev_pulse_number ≡ p.pulse_number
  pub missing :
      (p : Pulse) (s : storage.State)
      → (storage.get_pulse_by_prev p s).1 ≡ some record_not_found
      → (storage.get_pulse_by_prev p s).0 ≡ empty_pulse

-- What the processor and the controller together rely on: a jet drop that is saved without an error is there, and
-- no write removes one.
pub record SavedLaws (storage : Storage) (IsSaved : ℤ → Text → storage.State → Type 0)
    : Type 0 where
  pub saved :
      (d : JetDrop) (records : List Record) (n : ℤ) (db : storage.State)
      → (storage.save_jet_drop_data d records n db).0 ≡ none
      → IsSaved d.pulse_number d.jet_id (storage.save_jet_drop_data d records n db).1
  pub save_jet_drop_data_keeps :
      (d : JetDrop) (records : List Record) (n : ℤ) (db : storage.State) (m : ℤ) (j : Text)
      → IsSaved m j db
      → IsSaved m j (storage.save_jet_drop_data d records n db).1
  pub save_pulse_keeps :
      (p : Pulse) (db : storage.State) (m : ℤ) (j : Text)
      → IsSaved m j db
      → IsSaved m j (storage.save_pulse p db).1
  pub complete_pulse_keeps :
      (n : ℤ) (db : storage.State) (m : ℤ) (j : Text)
      → IsSaved m j db
      → IsSaved m j (storage.complete_pulse n db).1
  pub sequence_pulse_keeps :
      (n : ℤ) (db : storage.State) (m : ℤ) (j : Text)
      → IsSaved m j db
      → IsSaved m j (storage.sequence_pulse n db).1
