-- ===== src/Transformer/Entries.antt =====
-- What the maps of `initRecordsMapsByObj` hold.
use mathlib.Core.Option.{some-injective}
use block_explorer.Prelude.{
  ◌≡◌, refl, inl, inr, true, some, List, [], ◌∷◌, arith, Text, All, In, Map, lookup, insert, ◌==◌,
  ==_true, nat_eq, list_eq, Bool-cases, Option-cases, subst, All-append,
}
use block_explorer.Models.{CanonicalRecord}
use block_explorer.Transformer.{
  Runtime, ByKey, Maps, or_nil, is_state, put, add_record, init_records_maps_by_obj,
}

insert-All :
    {V : Type 0} (P : Text × V → Type 0) (k : Text) (v : V) (m : Map Text V)
    → P (k, v)
    → All P m
    → All P (insert k v m)
insert-All P k v [] p h = (p, tt)
insert-All P k v ((j, w) ∷ m) p h = elim (Bool-cases (j == k)) [
  | inl e ↦ rw e (p, h.1)
  | inr e ↦ rw e (h.0, insert-All P k v m p h.1)
]

pub lookup-All :
    {V : Type 0} (P : Text × V → Type 0) (k : Text) (v : V) (m : Map Text V)
    → All P m
    → lookup k m ≡ some v
    → P (k, v)
lookup-All P k v [] h e = absurd (ground arith)
lookup-All P k v ((j, w) ∷ m) h e = elim (Bool-cases (j == k)) [
  | inl b ↦
      let same : w ≡ v = some-injective w v (rw b at e) in
      subst (λ x. P (k, x)) same (subst (λ x. P (x, w)) (==_true j k b) h.0)
  | inr b ↦ lookup-All P k v m h.1 (rw b at e)
]

module _ (go : Runtime) (all_records : List CanonicalRecord) where
  abbrev id : Text → Text
  id = go.restore_insolar_id

  -- An entry of an object's map: one of the object's states, under the name of one of its ids.
  abbrev pub IsStateOf : Text → CanonicalRecord → Type 0
  IsStateOf obj r =
      In r all_records × (is_state r.record_type ≡ true) × (id r.object_reference ≡ obj)

  abbrev pub IsEntry : (CanonicalRecord → Text) → Text → Text × CanonicalRecord → Type 0
  IsEntry key obj (k, r) = (id (key r) ≡ k) × IsStateOf obj r

  abbrev pub IsObject : (CanonicalRecord → Text) → Text × ByKey → Type 0
  IsObject key (obj, m) = All (IsEntry key obj) m

  abbrev pub AreEntries : Maps → Type 0
  AreEntries maps =
      All (IsObject (λ r. r.prev_record_reference)) maps.by_prev_ref
      × All (IsObject (λ r. r.ref)) maps.by_ref
      × All (λ r. In r all_records) maps.not_state

  pub lookup-IsObject :
      (key : CanonicalRecord → Text) (obj : Text) (m : Map Text ByKey)
      → All (IsObject key) m
      → All (IsEntry key obj) (or_nil (lookup obj m))
  lookup-IsObject key obj m h = elim (Option-cases (lookup obj m)) [
    | inl e ↦ rw e tt
    | inr (inner, e) ↦ rw e (lookup-All (IsObject key) obj inner m h e)
  ]

  put-IsObject :
      (key : CanonicalRecord → Text) (r : CanonicalRecord) (m : Map Text ByKey)
      → In r all_records
      → is_state r.record_type ≡ true
      → All (IsObject key) m
      → All (IsObject key) (put go key r m)
  unfolding put
  put-IsObject key r m i s h =
      let obj = id r.object_reference in
      insert-All (IsObject key) obj (insert (id (key r)) r (or_nil (lookup obj m))) m
        (insert-All (IsEntry key obj) (id (key r)) r (or_nil (lookup obj m)) (refl, (i, s, refl))
          (lookup-IsObject key obj m h))
        h

  add_record-AreEntries :
      (r : CanonicalRecord) (maps : Maps)
      → In r all_records
      → AreEntries maps
      → AreEntries (add_record go r maps)
  unfolding add_record
  add_record-AreEntries r maps i (h, k, l) = elim (Bool-cases (is_state r.record_type)) [
    | inl e ↦ rw e (
      put-IsObject (λ r. r.prev_record_reference) r maps.by_prev_ref i e h,
      put-IsObject (λ r. r.ref) r maps.by_ref i e k,
      l,
    )
    | inr e ↦ rw e (h, k, All-append (λ r. In r all_records) maps.not_state (r ∷ []) l (i, tt))
  ]

  pub init-AreEntries :
      (records : List CanonicalRecord) (maps : Maps)
      → ((r : CanonicalRecord) → In r records → In r all_records)
      → AreEntries maps
      → AreEntries (init_records_maps_by_obj go records maps)
  unfolding init_records_maps_by_obj
  init-AreEntries [] maps sub h = h
  init-AreEntries (r ∷ records) maps sub h =
      init-AreEntries records (add_record go r maps) (λ x m. sub x (inr m))
        (add_record-AreEntries r maps (sub r (inl refl)) h)
