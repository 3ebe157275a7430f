-- ===== src/Transformer/Objects.antt =====
-- The objects that the maps of `initRecordsMapsByObj` have entries for.
use block_explorer.Prelude.{
  ◌≡◌, refl, sym, inl, inr, true, List, [], ◌∷◌, Text, arith, In, Map, insert, ◌==◌, ==_true,
  list_eq, nat_eq, Bool-cases, subst, ==_refl,
}
use block_explorer.Models.{CanonicalRecord}
use block_explorer.Transformer.{
  Runtime, Maps, is_state, keys, NoRepeat, put, add_record, init_records_maps_by_obj,
}

insert-key : {V : Type 0} (k : Text) (v : V) (m : Map Text V) → In k (keys (insert k v m))
insert-key k v [] = inl refl
insert-key k v ((j, w) ∷ m) = elim (Bool-cases (j == k)) [
  | inl e ↦ rw e (inl refl)
  | inr e ↦ rw e (inr (insert-key k v m))
]

insert-keeps_key :
    {V : Type 0} (i k : Text) (v : V) (m : Map Text V) → In i (keys m) → In i (keys (insert k v m))
insert-keeps_key i k v [] h = absurd h
insert-keeps_key i k v ((j, w) ∷ m) h = elim (Bool-cases (j == k)) [
  | inl e ↦ let same = ==_true j k e in rw e (subst (λ x. In i (x ∷ keys m)) same h)
  | inr e ↦ rw e (elim h [ inl h ↦ inl h | inr h ↦ inr (insert-keeps_key i k v m h) ])
]

key-insert :
    {V : Type 0} (i k : Text) (v : V) (m : Map Text V)
    → In i (keys (insert k v m))
    → (i ≡ k → ⊥)
    → In i (keys m)
key-insert i k v [] (inl e) n = absurd (n e)
key-insert i k v [] (inr h) n = absurd h
key-insert i k v ((j, w) ∷ m) h n = elim (Bool-cases (j == k)) [
  | inl e ↦
      let here : In i (k ∷ keys m) = rw e at h in elim here [ inl e ↦ absurd (n e) | inr h ↦ inr h ]
  | inr e ↦
      let here : In i (j ∷ keys (insert k v m)) = rw e at h in
      elim here [ inl e ↦ inl e | inr h ↦ inr (key-insert i k v m h n) ]
]

insert-NoRepeat :
    {V : Type 0} (k : Text) (v : V) (m : Map Text V)
    → NoRepeat (keys m)
    → NoRepeat (keys (insert k v m))
insert-NoRepeat k v [] h = (λ z. z, tt)
insert-NoRepeat k v ((j, w) ∷ m) h = elim (Bool-cases (j == k)) [
  | inl e ↦ let same = ==_true j k e in rw e (subst (λ x. NoRepeat (x ∷ keys m)) same h)
  | inr e ↦
      let other : j ≡ k → ⊥ = λ s. ground (arith, ==_refl k) in
      rw e ((λ i. h.0 (key-insert j k v m i other)), insert-NoRepeat k v m h.1)
]

module _ (go : Runtime) where
  abbrev id : Text → Text
  id = go.restore_insolar_id

  pub init-NoRepeat :
      (records : List CanonicalRecord) (maps : Maps)
      → NoRepeat (keys maps.by_ref)
      → NoRepeat (keys (init_records_maps_by_obj go records maps).by_ref)
  unfolding init_records_maps_by_obj add_record put
  init-NoRepeat [] maps h = h
  init-NoRepeat (r ∷ records) maps h =
      init-NoRepeat records (add_record go r maps) (elim (Bool-cases (is_state r.record_type)) [
        | inl e ↦ rw e (insert-NoRepeat _ _ maps.by_ref h)
        | inr e ↦ rw e h
      ])

  init-keeps_key :
      (obj : Text) (records : List CanonicalRecord) (maps : Maps)
      → In obj (keys maps.by_ref)
      → In obj (keys (init_records_maps_by_obj go records maps).by_ref)
  unfolding init_records_maps_by_obj add_record put
  init-keeps_key obj [] maps h = h
  init-keeps_key obj (r ∷ records) maps h =
      init-keeps_key obj records (add_record go r maps)
        (elim (Bool-cases (is_state r.record_type)) [
          | inl e ↦ rw e (insert-keeps_key obj _ _ maps.by_ref h)
          | inr e ↦ rw e h
        ])

  -- Every state's object has its entry.
  pub init-key :
      (records : List CanonicalRecord) (maps : Maps) (r : CanonicalRecord)
      → In r records
      → is_state r.record_type ≡ true
      → In (id r.object_reference) (keys (init_records_maps_by_obj go records maps).by_ref)
  unfolding init_records_maps_by_obj add_record put
  init-key [] maps r m s = absurd m
  init-key (x ∷ records) maps r (inr m) s = init-key records (add_record go x maps) r m s
  init-key (x ∷ records) maps r (inl e) s =
      init-keeps_key (id r.object_reference) records (add_record go x maps) (
        subst (λ y. In (id y.object_reference) (keys (add_record go x maps).by_ref)) (sym e)
          (let t : is_state x.record_type ≡ true = subst (λ y. is_state y.record_type ≡ true) e s in
            rw t (insert-key _ _ maps.by_ref)))
