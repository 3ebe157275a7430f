-- ===== src/Controller/MissedData.antt =====
-- etl/controller/misseddata.go: the ranges of pulses that were asked for again. A reading of the
-- clock is an argument; the mutex makes each operation one step.
pub mod Removal
pub mod Throttle
pub mod Stopping
use block_explorer.Prelude.{
  ℕ, zero, suc, ◌+◌, ◌-◌, Bool, true, false, Option, none, some, List, [], ◌∷◌, ◌++◌, ◌&&◌, length,
  get_elem?, get_or, set, take, any, ltb, if◌then◌else◌, ℤ, pos, leb_ℤ,
}

pub record MissedData : Type 0 where
  pub ts : ℕ
  pub from_pulse : ℤ
  pub to_pulse : ℤ

pub record MissedDataManager : Type 0 where
  pub missed_data_pool : List MissedData
  pub ttl : ℕ
  pub clean_period : ℕ

-- Go's zero value.
abbrev pub zero_missed : MissedData
zero_missed = record { ts = 0; from_pulse = pos 0; to_pulse = pos 0 }

unfoldable pub new_missed_data_manager : ℕ → ℕ → MissedDataManager
new_missed_data_manager ttl clean_period = record {
  missed_data_pool = [];
  ttl = ttl;
  clean_period = clean_period;
}

abbrev pub within : ℤ → ℤ → MissedData → Bool
within from_pulse to_pulse missed =
    leb_ℤ missed.from_pulse from_pulse && leb_ℤ to_pulse missed.to_pulse

-- `false` tells the caller that the range was asked for already.
unfoldable pub add : ℕ → ℤ → ℤ → MissedDataManager → MissedDataManager × Bool
add now from_pulse to_pulse mdm =
    if any (within from_pulse to_pulse) mdm.missed_data_pool
    then (mdm, false)
    else (record mdm { missed_data_pool = mdm.missed_data_pool ++ added ∷ [] }, true)
  where
    added : MissedData
    added = record { ts = now; from_pulse = from_pulse; to_pulse = to_pulse }

-- `time.Since(ts) > mdm.ttl`
unfoldable pub is_expired : ℕ → ℕ → ℕ → Bool
is_expired ttl now ts = ltb ttl (now - ts)

-- The last entry goes to index `i`, and the slice becomes one shorter.
unfoldable pub swap_remove : ℕ → List MissedData → List MissedData
swap_remove i pool =
    let last = length pool - 1 in
    take last (set (set pool i (get_or pool last zero_missed)) last zero_missed)

-- A round of the `range`, whose number of rounds was fixed when the loop began. The slice's array
-- is shared, so the entry met at `i` is the pool's own, or none if the pool has become too short.
unfoldable pub delete_round : (ℕ → ℕ) → ℕ → ℕ → List MissedData → List MissedData
delete_round clock ttl i pool = elim (get_elem? pool i) [
  | none ↦ pool
  | some missed ↦ if is_expired ttl (clock i) missed.ts then swap_remove i pool else pool
]

unfoldable pub delete_loop : (ℕ → ℕ) → ℕ → ℕ → ℕ → List MissedData → List MissedData
delete_loop clock ttl zero i pool = pool
delete_loop clock ttl (suc rounds) i pool =
    delete_loop clock ttl rounds (suc i) (delete_round clock ttl i pool)

-- `clock i` is what the clock shows in round `i`.
unfoldable pub delete_expired : (ℕ → ℕ) → MissedDataManager → MissedDataManager
delete_expired clock mdm = record mdm {
  missed_data_pool = delete_loop clock mdm.ttl (length mdm.missed_data_pool) 0 mdm.missed_data_pool;
}
