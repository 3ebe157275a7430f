-- ===== src/Storage.antt =====
-- etl/storage/storage.go: the queries. A query is its conditions, its order and its page, and what
-- gorm and the database answer to it is a parameter.
pub mod Index
pub mod Links
pub mod Filters
pub mod Queries
pub mod Writes
pub mod Service
pub mod Joined
pub mod Kept
use block_explorer.Prelude.{
  ℕ, ◌≡◌, ◌++◌, Bool, true, false, Option, none, some, List, [], ◌∷◌, Text, codes, ℤ, pos, negsuc,
  ◌==◌, int_eq, if◌then◌else◌,
}
use block_explorer.Go.Decimal.{parse_int}
use block_explorer.Go.Strings.{split}
use block_explorer.Models.{Record, JetDrop, Pulse, empty_pulse}
use block_explorer.Models.JetDropId.{JetDropId}
use block_explorer.Models.Siblings.{siblings, get_jet_id_parents}
use block_explorer.Interfaces.{DbError}

-- The conditions of the `Where` calls, by their SQL.
pub data Condition : Type 0 where
  pulse_number_is pulse_number_gt pulse_number_ge pulse_number_lt pulse_number_le : ℤ → Condition
  prev_pulse_number_is : ℤ → Condition
  timestamp_ge timestamp_le : ℤ → Condition
  is_complete is_sequential : Bool → Condition
  reference_is object_reference_is type_is jet_id_is jet_id_ge : Text → Condition
  jet_id_in : List Text → Condition
  jet_id_in_or_like : List Text → Text → Condition
  index_up index_down : ℤ → ℤ → Condition

-- `Order`
pub data Order : Type 0 where
  unordered pulse_asc pulse_desc index_asc index_desc : Order
  jet_id_asc pulse_asc_jet_desc pulse_desc_jet_asc : Order

pub record Query : Type 0 where
  pub conditions : List Condition
  pub order : Order

-- gorm: `Limit(limit).Offset(offset).Find`, `Count` and `First`.
pub record Gorm : Type 0 where
  pub find_pulses : Query → Option ℤ → Option ℤ → List Pulse × Option DbError
  pub find_records : Query → Option ℤ → Option ℤ → List Record × Option DbError
  pub find_jet_drops : Query → Option ℤ → Option ℤ → List JetDrop × Option DbError
  pub first_pulse : Query → Pulse × Option DbError
  pub first_record : Query → Record × Option DbError
  pub one_jet_drop : Query → JetDrop × Option DbError
  pub count_pulses : Query → ℤ × Option DbError
  pub count_records : Query → ℤ × Option DbError
  pub count_jet_drops : Query → ℤ × Option DbError

pub data StorageError : Type 0 where
  wrong_index : StorageError
  database : DbError → StorageError

-- A `Where` behind those that the query has.
unfoldable pub with_condition : Condition → Query → Query
with_condition c q = record q { conditions = q.conditions ++ c ∷ [] }

unfoldable pub with_optional : (ℤ → Condition) → Option ℤ → Query → Query
with_optional c none q = q
with_optional c (some n) q = with_condition (c n) q

abbrev pub all_rows : Query
all_rows = record { conditions = []; order = unordered }

-- CheckIndex
unfoldable pub index_of_parts : List Text → Option (ℤ × ℤ)
index_of_parts (pulse_number ∷ order ∷ []) = elim (parse_int pulse_number) [
  | none ↦ none
  | some n ↦ elim (parse_int order) [ none ↦ none | some o ↦ some (n, o) ]
]
index_of_parts _ = none

unfoldable pub check_index : Text → Option (ℤ × ℤ)
check_index i = index_of_parts (split b':' i)

unfoldable pub filter_by_pulse : Option ℤ → Option ℤ → Query → Query
filter_by_pulse pulse_number_lt' pulse_number_gt' q =
    with_optional pulse_number_lt pulse_number_lt'
      (with_optional pulse_number_gt pulse_number_gt' q)

unfoldable pub filter_by_pulse_number : Option ℤ → Option ℤ → Option ℤ → Option ℤ → Query → Query
filter_by_pulse_number lte lt gte gt q = with_optional pulse_number_gt gt (
    with_optional pulse_number_ge gte
      (with_optional pulse_number_lt lt (with_optional pulse_number_le lte q)))

unfoldable pub filter_by_timestamp : Option ℤ → Option ℤ → Query → Query
filter_by_timestamp lte gte q = with_optional timestamp_le lte (with_optional timestamp_ge gte q)

unfoldable pub filter_records_by_index : Text → Bool → Query → Option Query
filter_records_by_index from_index sort_by_index_asc q = elim (check_index from_index) [
  | none ↦ none
  | some (n, o) ↦
      some (with_condition (if sort_by_index_asc then index_up n o else index_down n o) q)
]

unfoldable pub sort_records_by_direction : Bool → Query → Query
sort_records_by_direction asc q = record q { order = if asc then index_asc else index_desc }

-- The links of the pages: a row beside its neighbour, when the database may lack pulses between.
abbrev pub unknown : ℤ
unknown = negsuc 0

-- One round of the ascending loop, which runs from the end of the page.
unfoldable pub link_before : Pulse → List Pulse → List Pulse
link_before p [] = p ∷ []
link_before p (q ∷ rest) =
    if q.prev_pulse_number == p.pulse_number
    then record p { next_pulse_number = q.pulse_number } ∷ q ∷ rest
    else record p { next_pulse_number = unknown } ∷ record q { prev_pulse_number = unknown } ∷ rest

unfoldable pub link_asc : List Pulse → List Pulse
link_asc [] = []
link_asc (p ∷ rest) = link_before p (link_asc rest)

-- The descending loop runs from the front.
unfoldable pub link_desc_from : Pulse → List Pulse → List Pulse
link_desc_from p [] = p ∷ []
link_desc_from p (q ∷ rest) =
    let known = link_desc_from (record q { next_pulse_number = p.pulse_number }) rest in
    let lost = link_desc_from (record q { next_pulse_number = unknown }) rest in
    if p.prev_pulse_number == q.pulse_number
    then p ∷ known
    else record p { prev_pulse_number = unknown } ∷ lost

unfoldable pub link_desc : List Pulse → List Pulse
link_desc [] = []
link_desc (p ∷ rest) = link_desc_from p rest

unfoldable pub on_first : (Pulse → Pulse) → List Pulse → List Pulse
on_first f [] = []
on_first f (p ∷ rest) = f p ∷ rest

unfoldable pub on_last : (Pulse → Pulse) → List Pulse → List Pulse
on_last f [] = []
on_last f (p ∷ []) = f p ∷ []
on_last f (p ∷ q ∷ rest) = p ∷ on_last f (q ∷ rest)

module _ (gorm : Gorm) where
  unfoldable pub update_next_pulse : Pulse → Pulse
  update_next_pulse p =
      let (next, err) =
        gorm.first_pulse (with_condition (prev_pulse_number_is p.pulse_number) all_rows) in
      elim err [
        | none ↦ record p { next_pulse_number = next.pulse_number }
        | some e ↦ record p { next_pulse_number = unknown }
      ]

  unfoldable pub update_prev_pulse : Pulse → Pulse
  update_prev_pulse p =
      let (prev, err) =
        gorm.first_pulse (with_condition (pulse_number_is p.prev_pulse_number) all_rows) in
      elim err [ none ↦ p | some e ↦ record p { prev_pulse_number = unknown } ]

  unfoldable pub get_pulse : ℤ → Pulse × Option DbError
  get_pulse n =
      let (p, err) = gorm.first_pulse (with_condition (pulse_number_is n) all_rows) in
      elim err [ some e ↦ (p, some e) | none ↦ (update_prev_pulse (update_next_pulse p), none) ]

  -- getPulses: the page and the number of all rows.
  unfoldable pub page_of_pulses : Query → ℤ → ℤ → List Pulse × ℤ × Option DbError
  page_of_pulses q limit offset =
      let (pulses, err) = gorm.find_pulses q (some limit) (some offset) in
      elim err [
        | some e ↦ ([], pos 0, some e)
        | none ↦
            let (total, err') = gorm.count_pulses q in
            elim err' [ some e ↦ ([], pos 0, some e) | none ↦ (pulses, total, none) ]
      ]

  -- The rows of a page with the numbers of their real neighbours.
  unfoldable pub link_page : Bool → List Pulse → List Pulse
  link_page sort_by_asc pulses =
      if sort_by_asc
      then on_last update_next_pulse (on_first update_prev_pulse (link_asc pulses))
      else on_last update_prev_pulse (on_first update_next_pulse (link_desc pulses))

  unfoldable pub get_pulses :
      Option ℤ
      → Option ℤ
      → Option ℤ
      → Option ℤ
      → Option ℤ
      → Option ℤ
      → Option ℤ
      → Bool
      → ℤ
      → ℤ
      → List Pulse × ℤ × Option DbError
  get_pulses from_pulse t_lte t_gte lte lt gte gt sort_by_asc limit offset =
      let q = filter_by_pulse_number lte lt gte gt (filter_by_timestamp t_lte t_gte all_rows) in
      let sorted = record q { order = if sort_by_asc then pulse_asc else pulse_desc } in
      let (pulses, total, err) =
        page_of_pulses (with_optional pulse_number_le from_pulse sorted) limit offset in
      elim err [ some e ↦ ([], pos 0, some e) | none ↦ (link_page sort_by_asc pulses, total, none) ]
