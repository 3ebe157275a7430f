-- ===== src/Extractor.antt =====
-- etl/extractor/platform_impl.go: the extractor's state with `Start`, `Stop` and `LoadJetDrops`, the
-- counter of workers, and the errors told apart by their texts. An error is its text.
pub mod Records
pub mod Pulses
pub mod Takers
use block_explorer.Prelude.{
  ℕ, suc, ◌+◌, ◌-◌, ◌%◌, ◌^◌, Bool, true, false, not, ◌||◌, Option, none, List, [], ◌∷◌, ◌++◌, Text,
  codes, ℤ, pos, negsuc, ltb, leb_ℤ, if◌then◌else◌,
}
use block_explorer.Go.Strings.{contains}
use block_explorer.Platform.{FullPulse, PlatformPulseData}

-- The platform's texts that errors are recognised by.
pub record Messages : Type 0 where
  pub deprecated_client_version : Text
  pub rate_limit_exceeded : Text
  pub not_final_pulse_data : Text
  pub not_found : Text

unfoldable pub is_version_error : Messages → Text → Bool
is_version_error texts err =
    contains err texts.deprecated_client_version
    || contains err (codes "unknown heavy-version")
    || contains err (codes "unknown type client")
    || contains err (codes "incorrect format of the heavy-version")

unfoldable pub is_rate_limit_error : Messages → Text → Bool
is_rate_limit_error texts err = contains err texts.rate_limit_exceeded

-- Where `retrievePulses` stands: at the head of its loop, waiting for a worker, counted beyond the
-- maximum until it takes that back, asking for the next pulse, returned, or out of its loop after a
-- version error.
pub data Phase : Type 0 where
  top waiting overdrawn asking returned broken : Phase

-- The variables of `retrievePulses`.
pub record Thread : Type 0 where
  pub main_thread : Bool
  pub until : ℤ
  pub pu : FullPulse
  pub next_not_empty_pulse_number : Option ℕ
  pub phase : Phase

-- A goroutine of `retrieveRecords`.
pub data Task : Type 0 where
  retrieving : FullPulse → Bool → Task
  done : Task

-- The extractor with the goroutines that it has started. `main_pulse_data_chan` holds all that was
-- sent to the channel, and `shutdowns` counts the calls of `shutdownBE`.
pub record PlatformExtractor : Type 0 where
  pub has_started : Bool
  pub workers : ℕ
  pub max_workers : ℕ
  pub batch_size : ℕ
  pub main_pulse_data_chan : List PlatformPulseData
  pub shutdowns : ℕ
  pub threads : List Thread
  pub tasks : List Task

unfoldable pub new_platform_extractor : ℕ → ℕ → PlatformExtractor
new_platform_extractor batch_size max_workers = record {
  has_started = false;
  workers = 0;
  max_workers = max_workers;
  batch_size = batch_size;
  main_pulse_data_chan = [];
  shutdowns = 0;
  threads = [];
  tasks = [];
}

-- The first addition of `takeWorker` and the comparison of its result. The second one, of those that
-- are beyond the maximum, is a step of its own: `take_back`.
unfoldable pub take_worker : PlatformExtractor → PlatformExtractor × Bool
take_worker e = (record e { workers = e.workers + 1 }, not (ltb e.max_workers (e.workers + 1)))

-- The counter is not zero in the next two: who subtracts has counted itself.
unfoldable pub take_back : PlatformExtractor → PlatformExtractor
take_back e = record e { workers = e.workers - 1 }

unfoldable pub free_worker : PlatformExtractor → PlatformExtractor
free_worker e = record e { workers = e.workers - 1 }

-- `if !mainThread { e.freeWorker() }`
unfoldable pub free_unless : Bool → PlatformExtractor → PlatformExtractor
free_unless main_thread e = if main_thread then e else free_worker e

-- `insolar.PulseNumber(n)`: an int64 as an uint32.
unfoldable pub to_pulse_number : ℤ → ℕ
to_pulse_number (pos n) = n % 2 ^ 32
to_pulse_number (negsuc n) = 2 ^ 32 - suc (n % 2 ^ 32)

-- `retrievePulses`, up to its loop.
unfoldable pub new_thread : ℤ → ℤ → Thread
new_thread from until = record {
  main_thread = leb_ℤ until (pos 0);
  until = until;
  pu = record {
    pulse_number = to_pulse_number from;
    prev_pulse_number = 0;
    next_pulse_number = 0;
    pulse_timestamp = pos 0;
    jets = [];
  };
  next_not_empty_pulse_number = none;
  phase = top;
}

unfoldable pub load_jet_drops : ℤ → ℤ → PlatformExtractor → PlatformExtractor
load_jet_drops from until e = record e { threads = e.threads ++ new_thread from until ∷ [] }

unfoldable pub start : PlatformExtractor → PlatformExtractor
start e =
    if e.has_started
    then e
    else record e { has_started = true; threads = e.threads ++ new_thread (pos 0) (pos 0) ∷ [] }

-- The cancelled context is met where a goroutine looks at it.
unfoldable pub stop : PlatformExtractor → PlatformExtractor
stop e = if e.has_started then record e { has_started = false } else e
