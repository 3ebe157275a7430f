-- ===== src/Api/Handlers/JetDrops/Hidden.antt =====
-- A failure of the database that the page of a jet does not show.
use block_explorer.Prelude.{◌≡◌, refl, Option, none, some, [], Text, ℤ, pos}
use block_explorer.Interfaces.{failed}
use block_explorer.Storage.{Gorm, Query}
use block_explorer.Storage.Queries.{page_of_jet_drops, get_jet_drops_by_jet_id}
use block_explorer.Api.Mappers.{Platform}
use block_explorer.Api.Handlers.{storage_fetcher, ok, SortWords}
use block_explorer.Api.Handlers.JetDrops.{
  JetDropsParams, page_response, jet_drops_failures, jet_drops_by_jet_id,
}

module _ (platform : Platform) (gorm : Gorm) where
  abbrev pub IsDown : Type 0
  IsDown =
      (q : Query) (limit offset : Option ℤ) → (gorm.find_jet_drops q limit offset).1 ≡ some failed

  page_down :
      (q : Query) (limit : ℤ) (offset : Option ℤ)
      → IsDown
      → page_of_jet_drops gorm q limit offset ≡ ([], pos 0, some failed)
  unfolding page_of_jet_drops
  page_down q limit offset down = rw (down q (some limit) offset, page_of_jet_drops) refl

  -- When every query of jet drops fails, the answer to a request with no other fault is an empty page
  -- with the status of success.
  pub db_failure_hidden :
      (words : SortWords) (jet_id : Text) (params : JetDropsParams)
      → IsDown
      → jet_drops_failures platform (storage_fetcher gorm) words jet_id params ≡ []
      → jet_drops_by_jet_id platform (storage_fetcher gorm) words jet_id params
        ≡ ok (record { total = pos 0; result = [] })
  unfolding jet_drops_by_jet_id storage_fetcher get_jet_drops_by_jet_id page_response
  db_failure_hidden words jet_id params down passed = rw passed (rw (page_down _ _ none down) refl)
