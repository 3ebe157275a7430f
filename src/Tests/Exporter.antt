-- ===== src/Tests/Exporter.antt =====
-- The exporter over a table of two pulses, and over one whose count fails.
use block_explorer.Prelude.{
  ◌≡◌, refl, true, false, Option, none, some, [], ◌∷◌, pos, arith, Bool-cases, inl, inr, ◌==◌,
  int_eq, ==_true, sym, if◌then◌else◌,
}
use block_explorer.Models.{Pulse, empty_pulse}
use block_explorer.Interfaces.{DbError, record_not_found, failed}
use block_explorer.Storage.Joined.{
  JoinedQuery, JoinedRows, get_next_complete_pulse_filter_by_prototype_reference,
}
use block_explorer.Exporter.{response_of, get_next_pulse, new_server, starts, stops, calls}
use block_explorer.Exporter.Linked.{
  FindLaws, Stored, round_of, rounds_of, IsLinked, get_next_pulse-IsLinked, count_failure_sent,
}
use block_explorer.Exporter.Lifetime.{server_never_stops}
use block_explorer.Tests.Fixtures.{pulse_20}

-- pulse_20 follows 10, and nothing follows another number.
abbrev found_after_10 : JoinedQuery → Pulse × Option DbError
found_after_10 q =
    if q.prev_pulse_number == pos 10 then (pulse_20, none) else (empty_pulse, some record_not_found)

abbrev table : JoinedRows
table = record { find = found_after_10; count = λ q. (pos 3, none) }

abbrev no_count : JoinedRows
no_count = record { find = found_after_10; count = λ q. (pos 0, some failed) }

after_10-found :
    (q : JoinedQuery)
    → (found_after_10 q).1 ≡ none
    → (found_after_10 q).0.prev_pulse_number ≡ q.prev_pulse_number
after_10-found q h = elim (Bool-cases (q.prev_pulse_number == pos 10)) [
  | inl b ↦ rw b (sym (==_true q.prev_pulse_number (pos 10) b))
  | inr b ↦ absurd (ground arith)
]

after_10-missing :
    (q : JoinedQuery) (e : DbError)
    → (found_after_10 q).1 ≡ some e
    → (found_after_10 q).0 ≡ empty_pulse
after_10-missing q e h = elim (Bool-cases (q.prev_pulse_number == pos 10)) [
  | inl b ↦ absurd (ground arith)
  | inr b ↦ rw b refl
]

table-FindLaws : FindLaws table
table-FindLaws = record { found = after_10-found; missing = after_10-missing }

no_count-FindLaws : FindLaws no_count
no_count-FindLaws = record { found = after_10-found; missing = after_10-missing }

abbrev counted : Stored
counted = record { rows = table; send = λ p. none; laws = table-FindLaws }

abbrev uncounted : Stored
uncounted = record { rows = no_count; send = λ p. none; laws = no_count-FindLaws }

-- The pulse is sent once, with the counted records.
sent_once : get_next_pulse (rounds_of (counted ∷ counted ∷ [])) (pos 10) [] ≡ (
  record { pulse_number = pos 20; prev_pulse_number = pos 10; record_amount = pos 3 } ∷ [],
  none,
)
unfolding get_next_pulse get_next_complete_pulse_filter_by_prototype_reference
sent_once = refl

get_next_pulse-IsLinked_example :
    IsLinked (pos 10) (get_next_pulse (rounds_of (counted ∷ uncounted ∷ [])) (pos 10) []).0
get_next_pulse-IsLinked_example =
    get_next_pulse-IsLinked (counted ∷ uncounted ∷ []) (pos 10) [] (omega arith)

count_failure_sent_example :
    get_next_pulse (round_of uncounted ∷ []) (pos 10) [] ≡ (response_of pulse_20 ∷ [], none)
count_failure_sent_example =
    count_failure_sent uncounted (pos 10) [] failed refl refl (omega arith) refl

server_never_stops_example :
    ((calls (starts true ∷ stops ∷ []) (new_server true)).has_started ≡ false)
    × ((calls (starts true ∷ stops ∷ []) (new_server true)).cancelled ≡ 0)
server_never_stops_example = server_never_stops true (starts true ∷ stops ∷ [])
