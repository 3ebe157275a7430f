-- ===== src/Transformer.antt =====
-- etl/transformer/transformer.go: `sortRecords`, which puts the state records of every object into
-- the order of change. The name of an id, `restoreInsolarID`, is a parameter: it is the platform's. So
-- are the orders in which `range` meets the entries of the two maps that it goes over.
pub mod Entries
pub mod Objects
pub mod Records
pub mod Drops
pub mod MainNet
pub mod Runs
use block_explorer.Prelude.{
  ℕ, zero, suc, ◌-◌, Bool, true, false, Option, none, some, List, [], ◌∷◌, ◌++◌, Text, length, Map,
  lookup, insert, In, ◌==◌, nat_eq, list_eq, if◌then◌else◌,
}
use block_explorer.Models.{CanonicalRecord, RecordType, state, request, result}

-- The maps of `initRecordsMapsByObj`.
abbrev pub ByKey : Type 0
ByKey = Map Text CanonicalRecord

pub record Maps : Type 0 where
  pub by_prev_ref : Map Text ByKey
  pub by_ref : Map Text ByKey
  pub not_state : List CanonicalRecord

abbrev pub or_nil : Option ByKey → ByKey
or_nil none = []
or_nil (some m) = m

abbrev pub is_state : RecordType → Bool
is_state state = true
is_state request = false
is_state result = false

abbrev pub values : ByKey → List CanonicalRecord
values [] = []
values ((k, r) ∷ m) = r ∷ values m

abbrev pub no_maps : Maps
no_maps = record { by_prev_ref = []; by_ref = []; not_state = [] }

abbrev pub keys : {V : Type 0} → Map Text V → List Text
keys [] = []
keys ((k, v) ∷ m) = k ∷ keys m

abbrev pub NoRepeat : List Text → Type 0
NoRepeat [] = Unit
NoRepeat (k ∷ ks) = (In k ks → ⊥) × NoRepeat ks

-- A `range` meets the entries of a map and no others, every key, and none of them twice.
pub record IsRange {V : Type 0} (order : Map Text V → Map Text V) : Type 0 where
  pub met : (m : Map Text V) (x : Text × V) → In x (order m) → In x m
  pub all_met : (m : Map Text V) (k : Text) → In k (keys m) → In k (keys (order m))
  pub met_once : (m : Map Text V) → NoRepeat (keys m) → NoRepeat (keys (order m))

-- The names of ids, and the orders of `range recordsByObjAndRef` and `range recordsByPrevRef`.
pub record Runtime : Type 0 where
  pub restore_insolar_id : Text → Text
  pub range_objects : Map Text ByKey → Map Text ByKey
  pub range_records : ByKey → ByKey
  pub range_objects-IsRange : IsRange range_objects
  pub range_records-IsRange : IsRange range_records

module _ (go : Runtime) where
  -- `m[object][key] = r`
  unfoldable pub put : (CanonicalRecord → Text) → CanonicalRecord → Map Text ByKey → Map Text ByKey
  put key r m =
      let obj = go.restore_insolar_id r.object_reference in
      insert obj (insert (go.restore_insolar_id (key r)) r (or_nil (lookup obj m))) m

  unfoldable pub add_record : CanonicalRecord → Maps → Maps
  add_record r maps =
      if is_state r.record_type
      then record maps {
        by_prev_ref = put (λ r. r.prev_record_reference) r maps.by_prev_ref;
        by_ref = put (λ r. r.ref) r maps.by_ref;
      }
      else record maps { not_state = maps.not_state ++ r ∷ [] }

  unfoldable pub init_records_maps_by_obj : List CanonicalRecord → Maps → Maps
  init_records_maps_by_obj [] maps = maps
  init_records_maps_by_obj (r ∷ records) maps = init_records_maps_by_obj records (add_record r maps)

  -- The first entry met whose record refers to none of the others.
  unfoldable pub find_head : ByKey → ByKey → Option CanonicalRecord
  find_head records_by_ref [] = none
  find_head records_by_ref ((k, r) ∷ m) =
      elim (lookup (go.restore_insolar_id r.prev_record_reference) records_by_ref) [
        | none ↦ some r
        | some _ ↦ find_head records_by_ref m
      ]

  -- `for i := 1; len(recordsByPrevRef) != i; i++`, with the rounds that are left.
  unfoldable pub follow : ByKey → Text → ℕ → Option (List CanonicalRecord)
  follow records_by_prev_ref key zero = some []
  follow records_by_prev_ref key (suc rounds) = elim (lookup key records_by_prev_ref) [
    | none ↦ none
    | some r ↦ elim (follow records_by_prev_ref (go.restore_insolar_id r.ref) rounds) [
      | none ↦ none
      | some rest ↦ some (r ∷ rest)
    ]
  ]

  -- The records of one object in their order.
  unfoldable pub order_object : ByKey → ByKey → Option (List CanonicalRecord)
  order_object records_by_prev_ref records_by_ref =
      if length records_by_ref == 1
      then some (values records_by_ref)
      else elim (find_head records_by_ref (go.range_records records_by_prev_ref)) [
        | none ↦ none
        | some head ↦
            elim (follow records_by_prev_ref (go.restore_insolar_id head.ref)
              (length records_by_prev_ref - 1)) [ none ↦ none | some rest ↦ some (head ∷ rest) ]
      ]

  -- The loop over the objects, in the order in which they are met.
  unfoldable pub order_objects :
      Map Text ByKey → Map Text ByKey → List CanonicalRecord → Option (List CanonicalRecord)
  order_objects by_prev_ref [] sorted = some sorted
  order_objects by_prev_ref ((obj, records_by_ref) ∷ objects) sorted =
      elim (order_object (or_nil (lookup obj by_prev_ref)) records_by_ref) [
        | none ↦ none
        | some run ↦ order_objects by_prev_ref objects (sorted ++ run)
      ]

  unfoldable pub sort_records : List CanonicalRecord → Option (List CanonicalRecord)
  sort_records records =
      let maps = init_records_maps_by_obj records no_maps in
      elim (order_objects maps.by_prev_ref (go.range_objects maps.by_ref) maps.not_state) [
        | none ↦ none
        | some sorted ↦ if length records == length sorted then some sorted else none
      ]
