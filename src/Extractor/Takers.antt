-- ===== src/Extractor/Takers.antt =====
-- etl/extractor/platform_impl.go: `takeWorker` and `freeWorker` of goroutines that run at the same
-- time. Each atomic addition is a step of its own: a taker that meets the maximum has counted itself
-- until it takes that back.
use block_explorer.Prelude.{
  ℕ, ◌+◌, ◌-◌, ◌≤◌, ◌≡◌, Option, none, some, List, get_elem?, set, ltb, if◌then◌else◌,
}
use block_explorer.Extractor.Pulses.Holding.{total}

pub data Taker : Type 0 where
  away counted holding : Taker

pub data Move : Type 0 where
  adds takes_back frees : ℕ → Move

pub record Counter : Type 0 where
  pub workers : ℕ
  pub takers : List Taker

-- `atomic.AddInt32(&e.workers, 1) > max`
unfoldable pub added : ℕ → ℕ → Taker
added max workers = if ltb max (workers + 1) then counted else holding

unfoldable pub move : ℕ → Move → Counter → Option Counter
move max (adds i) c = elim (get_elem? c.takers i) [
  | some away ↦
      some (record { workers = c.workers + 1; takers = set c.takers i (added max c.workers) })
  | _ ↦ none
]
move max (takes_back i) c = elim (get_elem? c.takers i) [
  | some counted ↦ some (record { workers = c.workers - 1; takers = set c.takers i away })
  | _ ↦ none
]
move max (frees i) c = elim (get_elem? c.takers i) [
  | some holding ↦ some (record { workers = c.workers - 1; takers = set c.takers i away })
  | _ ↦ none
]

abbrev pub counts : Taker → ℕ
counts away = 0
counts counted = 1
counts holding = 1

abbrev pub holds : Taker → ℕ
holds away = 0
holds counted = 0
holds holding = 1

-- The counter counts who holds a worker and who is to take its addition back; at most `max` hold one.
pub record IsBounded (max : ℕ) (c : Counter) : Type 0 where
  pub exact : c.workers ≡ total counts c.takers
  pub bounded : total holds c.takers ≤ max
