-- ===== src/Tests/Extractor.antt =====
-- The extractor on a platform that is busy at the first call and whose every pulse has one record.
use mathlib.Core.Option.{some-injective}
use block_explorer.Prelude.{
  ℕ, zero, suc, ◌+◌, ◌≤◌, ◌≡◌, refl, subst, true, false, none, some, List, [], ◌∷◌, codes, arith,
  pos, drop,
}
use block_explorer.Go.Strings.{contains, has_prefix}
use block_explorer.Platform.{FullPulse, PlatformRecord, other}
use block_explorer.Extractor.{
  Messages, is_version_error, is_rate_limit_error, PlatformExtractor, Thread, Phase, waiting,
  overdrawn, asking, returned, take_worker, take_back, free_worker, free_unless, to_pulse_number,
}
use block_explorer.Extractor.Records.{
  GetRecords, Received, packet, opened, refused, Client, retrieved, is_next_pulse_packet,
  receive_failed, receive, portions, conclude, retrieve_records,
}
use block_explorer.Extractor.Records.Whole.{Ledger, EmptyBetween, Serves, IsFaithful}
use block_explorer.Extractor.Records.Ending.{IsLively, IsGentle, IsBenign, Delivers, retrieval_ends}
use block_explorer.Extractor.Pulses.{
  attempt, undo, next_pulse, proceeds, in_turn, hand_on, go_on, answered, attempted, thread_step,
  proceed_step, step,
}
use block_explorer.Extractor.Pulses.Holding.{IsCounted}
use block_explorer.Extractor.Pulses.Counting.{step-IsCounted}
use block_explorer.Extractor.Pulses.Sending.{Sends}
use block_explorer.Extractor.Pulses.Served.{step-Sends}
use block_explorer.Extractor.Takers.{away, counted, holding, Counter}

abbrev texts : Messages
texts = record {
  deprecated_client_version = codes "deprecated";
  rate_limit_exceeded = codes "limit";
  not_final_pulse_data = codes "not final";
  not_found = codes "not found";
}

abbrev record_of : ℕ → PlatformRecord
record_of p = record {
  should_iterate_from = none;
  pulse = p;
  jet_id = [];
  id = codes "id";
  hash = [];
  object_id = [];
  raw_data = some [];
  record_number = 1;
  virtual = other;
}

abbrev one_each : Ledger
one_each p = record_of p ∷ []

abbrev rest_of : ℕ → ℕ → List Received
rest_of p zero = packet (record_of p) ∷ packet (record_of (p + 1)) ∷ []
rest_of p (suc n) = packet (record_of (p + 1)) ∷ []

abbrev busy_once : Client
busy_once zero req = refused (codes "limit")
busy_once (suc n) req = opened (rest_of req.pulse_number req.record_number)

own_packet : (p : ℕ) → is_next_pulse_packet p (record_of p) ≡ false
unfolding is_next_pulse_packet
own_packet p = ground arith

later_packet : (p : ℕ) → is_next_pulse_packet p (record_of (p + 1)) ≡ true
unfolding is_next_pulse_packet
later_packet p = ground arith

at_once : (p : ℕ) → EmptyBetween one_each p (p + 1)
at_once p q l m = absurd (omega arith)

rest_of-Serves : (p n : ℕ) → Serves one_each p (drop n (one_each p)) (rest_of p n)
rest_of-Serves p zero = (refl, own_packet p, (later_packet p, at_once p))
rest_of-Serves p (suc zero) = (later_packet p, at_once p)
rest_of-Serves p (suc (suc n)) = (later_packet p, at_once p)

busy_once-Serves :
    (n : ℕ) (req : GetRecords) (stream : List Received)
    → busy_once n req ≡ opened stream
    → Serves one_each req.pulse_number (drop req.record_number (one_each req.pulse_number)) stream
busy_once-Serves zero req stream e = absurd (ground arith)
busy_once-Serves (suc n) req stream e =
    let same : rest_of req.pulse_number req.record_number ≡ stream = ground arith in
    subst (Serves one_each req.pulse_number (drop req.record_number (one_each req.pulse_number)))
      same (rest_of-Serves req.pulse_number req.record_number)

busy_once-IsFaithful : IsFaithful one_each busy_once
busy_once-IsFaithful = record { serves = busy_once-Serves; countable = λ p. omega arith }

busy_once-IsLively : IsLively texts 1 busy_once
unfolding is_version_error contains has_prefix
busy_once-IsLively = record { benign = benign; delivers = delivers }
  where
    gentle : (p n : ℕ) → IsGentle texts (rest_of p n)
    gentle p zero = tt
    gentle p (suc n) = tt

    brings : (p n : ℕ) → Delivers texts (opened (rest_of p n))
    brings p zero = tt
    brings p (suc n) = tt

    benign : (n : ℕ) (req : GetRecords) → IsBenign texts (busy_once n req)
    benign zero req = refl
    benign (suc n) req = gentle req.pulse_number req.record_number

    delivers :
        (n : ℕ)
        → (j : ℕ) × (n ≤ j) × (j ≤ n + 1) × ((req : GetRecords) → Delivers texts (busy_once j req))
    delivers zero = (1, omega arith, omega arith, λ req. brings req.pulse_number req.record_number)
    delivers (suc n) =
        (suc n, omega arith, omega arith, λ req. brings req.pulse_number req.record_number)

retrieval_ends_example :
    (next : ℕ) × (portions texts busy_once 5 10 4 0 [] ≡ retrieved (one_each 10) next)
    × EmptyBetween one_each 10 next
retrieval_ends_example =
    retrieval_ends texts one_each 1 busy_once busy_once-IsFaithful busy_once-IsLively 5 10 4
      (omega arith)

abbrev pulse_of : ℕ → FullPulse
pulse_of p = record {
  pulse_number = p;
  prev_pulse_number = 0;
  next_pulse_number = 0;
  pulse_timestamp = pos 0;
  jets = [];
}

-- A range from 5 to 10 with one worker, its thread in a phase.
abbrev range_at : Phase → ℕ → PlatformExtractor
range_at phase workers = record {
  has_started = false;
  workers = workers;
  max_workers = 1;
  batch_size = 5;
  main_pulse_data_chan = [];
  shutdowns = 0;
  threads =
      record {
        main_thread = false;
        until = pos 10;
        pu = pulse_of 5;
        next_not_empty_pulse_number = none;
        phase = phase;
      }
      ∷ [];
  tasks = [];
}

takes : step texts (proceeds 0 attempt) (range_at waiting 0) ≡ some (range_at asking 1)
unfolding step proceed_step thread_step attempted take_worker
takes = refl

-- A second range meets the maximum: it has counted itself until it takes that back.
abbrev second_at : Phase → ℕ → PlatformExtractor
second_at phase workers = record (range_at asking workers) {
  threads =
      record {
        main_thread = false;
        until = pos 10;
        pu = pulse_of 5;
        next_not_empty_pulse_number = none;
        phase = asking;
      }
      ∷ record {
        main_thread = false;
        until = pos 20;
        pu = pulse_of 12;
        next_not_empty_pulse_number = none;
        phase = phase;
      }
      ∷ [];
}

overshoots : step texts (proceeds 1 attempt) (second_at waiting 1) ≡ some (second_at overdrawn 2)
unfolding step proceed_step thread_step attempted take_worker
overshoots = refl

takes_back_again : step texts (proceeds 1 undo) (second_at overdrawn 2) ≡ some (second_at waiting 1)
unfolding step proceed_step thread_step take_back
takes_back_again = refl

step-IsCounted_example : IsCounted (second_at overdrawn 2)
step-IsCounted_example =
    step-IsCounted texts (proceeds 1 attempt) (second_at waiting 1) (second_at overdrawn 2)
      overshoots
      (record { exact = refl; bounded = omega arith; waits = (λ w. refl, (λ w. refl, tt)) })

abbrev range_done : PlatformExtractor
range_done = record (range_at asking 1) {
  workers = 0;
  main_pulse_data_chan = record { pulse = pulse_of 10; records = one_each 10 } ∷ [];
  threads =
      record {
        main_thread = false;
        until = pos 10;
        pu = pulse_of 10;
        next_not_empty_pulse_number = some 11;
        phase = returned;
      }
      ∷ [];
}

answers :
    step texts (proceeds 0 (next_pulse (pulse_of 10) busy_once 3)) (range_at asking 1)
    ≡ some range_done
unfolding step proceed_step thread_step answered hand_on in_turn go_on to_pulse_number
    retrieve_records conclude free_unless free_worker portions receive receive_failed
    is_version_error is_rate_limit_error is_next_pulse_packet contains has_prefix
answers = refl

step-Sends_example : Sends one_each range_done
step-Sends_example =
    step-Sends one_each texts (proceeds 0 (next_pulse (pulse_of 10) busy_once 3))
      (range_at asking 1) range_done
      (λ (t : Thread) e.
        subst (λ (u : Thread). (u.pu.pulse_number ≤ 10) × IsFaithful one_each busy_once)
          (some-injective _ t e) (omega arith, busy_once-IsFaithful))
      answers (record { sent = tt; skips = (λ n is. absurd (ground arith), tt) })

abbrev one_taken : Counter
one_taken = record { workers = 1; takers = holding ∷ away ∷ [] }

abbrev overshot : Counter
overshot = record { workers = 2; takers = holding ∷ counted ∷ [] }
