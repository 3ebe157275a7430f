-- ===== src/Tests/Storage.antt =====
-- Pages, filters and indices on small inputs.
use mathlib.Core.List.{reverse}
use block_explorer.Prelude.{
  ℤ, ◌≡◌, Text, ℤ, none, some, List, [], ◌∷◌, codes, arith, pos, Bool, true, false, suc, ℕ, Option,
  refl, ◌==◌, int_eq, if◌then◌else◌,
}
use block_explorer.Models.{empty_pulse, Record, Pulse}
use block_explorer.Storage.{link_asc, link_desc, Condition, prev_pulse_number_is, Gorm}
use block_explorer.Storage.Links.{link_desc-reverse}
use block_explorer.Interfaces.{DbError, failed, record_not_found}
use block_explorer.Storage.Kept.{KeepsSaved, service-SavedLaws}
use block_explorer.Storage.Writes.Keeping.{RowLaws}
use block_explorer.Storage.Writes.{
  Statements, committing, save_jet_drop_data, init_jd, and_then, transaction, save_records,
}
use block_explorer.Storage.Writes.Transactions.{
  CounterLaws, saved_anew, save_jet_drop_data_atomic, save_jet_drop_data_counts_once,
}
use block_explorer.Tests.Fixtures.{pulse_20, pulse_10, pulse_30, drop_30}

abbrev row : Record
row = record {
  reference = codes "r";
  record_type = codes "state";
  object_reference = [];
  prototype_reference = [];
  payload = [];
  prev_record_reference = [];
  hash = [];
  raw_data = [];
  jet_id = codes "01";
  pulse_number = pos 65540;
  order = 12;
  timestamp = pos 3;
}

abbrev page : List Pulse
page = pulse_10 ∷ pulse_30 ∷ []

link_desc-reverse_example : link_desc page ≡ reverse (link_asc (reverse page))
link_desc-reverse_example = link_desc-reverse page

-- A database of one possible row and one counter.
abbrev creates : Bool × ℕ → Option DbError × (Bool × ℕ)
creates (true, c) = (some failed, (true, c))
creates (false, c) = (none, (true, c))

abbrev one_row_db : Statements
one_row_db = record {
  State = Bool × ℕ;
  create_jet_drop = λ d s. creates s;
  save_jet_drop = λ d s. (none, (true, s.1));
  save_record = λ r s. (none, s);
  add_amounts = λ n k s. (none, (s.0, suc s.1));
  upsert_pulse = λ p s. (none, s);
  set_complete = λ n s. ((none, 1), s);
  set_sequential = λ n s. ((none, 0), s);
  commit = λ s. (none, s);
}

abbrev broken_db : Statements
broken_db = record one_row_db { commit = λ s. (some failed, s) }

creates_new : (s : Bool × ℕ) → (creates s).0 ≡ none → s.0 ≡ false
creates_new (true, c) e = absurd (ground arith)
creates_new (false, c) e = refl

one_row_laws : CounterLaws one_row_db (λ d s. s.0) (λ s. s.1)
one_row_laws = record {
  created = λ d s e. creates_new s e;
  saved = λ d s. refl;
  record_saved = λ r s. refl;
  committed = λ s. refl;
}

save_jet_drop_data_counts_once_example :
    ((save_jet_drop_data one_row_db drop_30 (row ∷ []) (pos 30) (true, 1)).1.1 ≡ 1)
    × ((save_jet_drop_data one_row_db drop_30 (row ∷ []) (pos 30) (true, 1)).0 ≡ none
        → (save_jet_drop_data one_row_db drop_30 (row ∷ []) (pos 30) (true, 1)).1
          ≡ saved_anew one_row_db drop_30 (row ∷ []) (true, 1))
save_jet_drop_data_counts_once_example =
    save_jet_drop_data_counts_once one_row_db (λ d s. s.0) (λ s. s.1) one_row_laws drop_30
      (row ∷ []) (pos 30) (true, 1) refl

save_jet_drop_data_atomic_example :
    (save_jet_drop_data broken_db drop_30 (row ∷ []) (pos 30) (false, 0)).1 ≡ (false, 0)
unfolding save_jet_drop_data init_jd and_then transaction save_records
save_jet_drop_data_atomic_example =
    save_jet_drop_data_atomic broken_db drop_30 (row ∷ []) (pos 30) (false, 0) (committing failed)
      refl

-- Reads that know one link of the chain of pulses.
abbrev answer : List Condition → Pulse × Option DbError
answer (prev_pulse_number_is n ∷ []) =
    if n == pos 10 then (pulse_20, none) else (empty_pulse, some record_not_found)
answer _ = (empty_pulse, some record_not_found)

abbrev one_link : Gorm
one_link = record {
  find_pulses = λ q l o. ([], none);
  find_records = λ q l o. ([], none);
  find_jet_drops = λ q l o. ([], none);
  first_pulse = λ q. answer q.conditions;
  first_record = λ q. (row, none);
  one_jet_drop = λ q. (drop_30, none);
  count_pulses = λ q. (pos 0, none);
  count_records = λ q. (pos 0, none);
  count_jet_drops = λ q. (pos 0, none);
}

created_is_there : (s : Bool × ℕ) → (creates s).0 ≡ none → (creates s).1.0 ≡ true
created_is_there (true, c) e = refl
created_is_there (false, c) e = refl

created_stays : (s : Bool × ℕ) → s.0 ≡ true → (creates s).1.0 ≡ true
created_stays (true, c) e = refl
created_stays (false, c) e = absurd (ground arith)

abbrev HasRow : ℤ → Text → Bool × ℕ → Type 0
HasRow m j s = s.0 ≡ true

one_row-RowLaws : RowLaws one_row_db HasRow
one_row-RowLaws = record {
  created = λ d s e. created_is_there s e;
  updated = λ d s e. refl;
  create_jet_drop_keeps = λ d s m j h. created_stays s h;
  save_jet_drop_keeps = λ d s m j h. refl;
  save_record_keeps = λ r s m j h. h;
  add_amounts_keeps = λ n k s m j h. h;
  upsert_pulse_keeps = λ p s m j h. h;
  set_complete_keeps = λ n s m j h. h;
  set_sequential_keeps = λ n s m j h. h;
  commit_keeps = λ s m j h. h;
}

service-SavedLaws_example : KeepsSaved one_row_db (λ s. one_link) HasRow
service-SavedLaws_example = service-SavedLaws one_row_db (λ s. one_link) HasRow one_row-RowLaws
