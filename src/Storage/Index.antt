-- ===== src/Storage/Index.antt =====
-- The index of a record, as the API shows it and as `CheckIndex` reads it.
use block_explorer.Prelude.{◌≡◌, refl, some, ◌∷◌, ◌++◌, Text, pos}
use block_explorer.Go.Decimal.{format_int, IsInt64, parse_int-format_int}
use block_explorer.Go.Strings.{split_two}
use block_explorer.Models.{Record}
use block_explorer.Models.JetDropId.{format_int-IsLetter, IsLetter-Lacks}
use block_explorer.Storage.{index_of_parts, check_index}

-- api/mappers.go: `fmt.Sprintf("%d:%d", record.PulseNumber, record.Order)`
unfoldable pub record_index : Record → Text
record_index r = format_int r.pulse_number ++ b':' ∷ format_int (pos r.order)

-- The index that the API shows for a record is accepted as a query's first index and names the
-- record's pulse and order.
pub check_index-record_index :
    (r : Record)
    → IsInt64 r.pulse_number
    → IsInt64 (pos r.order)
    → check_index (record_index r) ≡ some (r.pulse_number, pos r.order)
unfolding check_index record_index index_of_parts
check_index-record_index r p o =
    rw
      (
        split_two b':' (format_int r.pulse_number) (format_int (pos r.order))
            (IsLetter-Lacks _ (format_int-IsLetter r.pulse_number))
            (IsLetter-Lacks _ (format_int-IsLetter (pos r.order))),
        check_index,
      )
      (rw
        (
          parse_int-format_int r.pulse_number p,
          parse_int-format_int (pos r.order) o,
          index_of_parts,
        )
        refl)
