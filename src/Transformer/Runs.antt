-- ===== src/Transformer/Runs.antt =====
-- The order of change that `sortRecords` gives to the records of every object.
use mathlib.Core.List.{append_assoc, append-nil}
use mathlib.Core.Option.{some-injective}
use block_explorer.Prelude.{
  ℕ, zero, suc, ◌-◌, ◌≡◌, sym, ap, ◌∙◌, refl, inl, inr, not, some, List, [], ◌∷◌, ◌++◌, arith, Text,
  All, In, Map, lookup, length, select, ◌==◌, ==_true, nat_eq, list_eq, Bool-cases, Option-cases,
  subst, true, All-intro, All-In,
}
use block_explorer.Models.{CanonicalRecord}
use block_explorer.Transformer.{
  Runtime, ByKey, Maps, IsRange, no_maps, or_nil, is_state, values, keys, NoRepeat, add_record,
  init_records_maps_by_obj, find_head, follow, order_object, order_objects, sort_records,
}
use block_explorer.Transformer.Entries.{
  lookup-All, IsStateOf, IsEntry, IsObject, lookup-IsObject, init-AreEntries, AreEntries,
}
use block_explorer.Transformer.Objects.{init-NoRepeat, init-key}

-- The runs of the objects, one after the other.
abbrev pub joined : Map Text (List CanonicalRecord) → List CanonicalRecord
joined [] = []
joined ((obj, run) ∷ runs) = run ++ joined runs

-- The records that are no states, in their order.
abbrev pub others : List CanonicalRecord → List CanonicalRecord
others records = select (λ r. not (is_state r.record_type)) records

-- What holds of every entry holds of those that a `range` meets.
range-All :
    {V : Type 0} (P : Text × V → Type 0) (order : Map Text V → Map Text V) (m : Map Text V)
    → IsRange order
    → All P m
    → All P (order m)
range-All P order m h a = All-intro P (order m) (λ x i. All-In P m x a (h.met m x i))

module _ (go : Runtime) where
  abbrev id : Text → Text
  id = go.restore_insolar_id

  -- Each record refers to the one before it as its previous state.
  abbrev pub Chained : Text → List CanonicalRecord → Type 0
  Chained key [] = Unit
  Chained key (r ∷ rest) = (id r.prev_record_reference ≡ key) × Chained (id r.ref) rest

  abbrev pub IsRun : List CanonicalRecord → Type 0
  IsRun [] = Unit
  IsRun (r ∷ rest) = Chained (id r.ref) rest

  module _ (all_records : List CanonicalRecord) where
    -- The states of one object, in the order of change.
    abbrev pub IsRunOf : Text × List CanonicalRecord → Type 0
    IsRunOf (obj, run) = IsRun run × All (IsStateOf go all_records obj) run

    abbrev Prev : Text → Text × CanonicalRecord → Type 0
    Prev = IsEntry go all_records (λ r. r.prev_record_reference)

    abbrev Ref : Text → Text × CanonicalRecord → Type 0
    Ref = IsEntry go all_records (λ r. r.ref)

    abbrev OfObject : Text → List CanonicalRecord → Type 0
    OfObject obj = All (IsStateOf go all_records obj)

    follow-Chained :
        (obj : Text) (m : ByKey) (key : Text) (rounds : ℕ) (out : List CanonicalRecord)
        → All (Prev obj) m
        → follow go m key rounds ≡ some out
        → Chained key out × OfObject obj out
    unfolding follow
    follow-Chained obj m key zero out h e =
        subst (λ o. Chained key o × OfObject obj o) (some-injective [] out e) (tt, tt)
    follow-Chained obj m key (suc rounds) out h e = elim (Option-cases (lookup key m)) [
      | inl f ↦ absurd (ground arith)
      | inr (r, f) ↦ elim (Option-cases (follow go m (id r.ref) rounds)) [
        | inl g ↦ absurd (ground arith)
        | inr (rest, g) ↦
            let (named, known) = lookup-All (Prev obj) key r m h f in
            let (chained, more) = follow-Chained obj m (id r.ref) rounds rest h g in
            let same : r ∷ rest ≡ out = ground arith in
            subst (λ o. Chained key o × OfObject obj o) same ((named, chained), (known, more))
      ]
    ]

    find_head-IsStateOf :
        (obj : Text) (refs m : ByKey) (head : CanonicalRecord)
        → All (Prev obj) m
        → find_head go refs m ≡ some head
        → IsStateOf go all_records obj head
    unfolding find_head
    find_head-IsStateOf obj refs [] head h e = absurd (ground arith)
    find_head-IsStateOf obj refs ((k, r) ∷ m) head h e =
        elim (Option-cases (lookup (id r.prev_record_reference) refs)) [
          | inl f ↦
              let same : r ≡ head = ground arith in subst (IsStateOf go all_records obj) same h.0.1
          | inr (x, f) ↦
              let later : find_head go refs m ≡ some head = ground arith in
              find_head-IsStateOf obj refs m head h.1 later
        ]

    single-IsRunOf :
        (obj : Text) (m : ByKey) → length m ≡ 1 → All (Ref obj) m → IsRunOf (obj, values m)
    single-IsRunOf obj [] e h = absurd (ground arith)
    single-IsRunOf obj ((k, r) ∷ []) e h = (tt, (h.0.1, tt))
    single-IsRunOf obj (x ∷ y ∷ m) e h = absurd (ground arith)

    order_object-IsRunOf :
        (obj : Text) (prevs refs : ByKey) (run : List CanonicalRecord)
        → All (Prev obj) prevs
        → All (Ref obj) refs
        → order_object go prevs refs ≡ some run
        → IsRunOf (obj, run)
    unfolding order_object
    order_object-IsRunOf obj prevs refs run h k e = elim (Bool-cases (length refs == 1)) [
      | inl b ↦
          let same : values refs ≡ run = ground arith in
          subst (λ o. IsRunOf (obj, o)) same (single-IsRunOf obj refs (==_true (length refs) 1 b) k)
      | inr b ↦ elim (Option-cases (find_head go refs (go.range_records prevs))) [
        | inl f ↦ absurd (ground arith)
        | inr (head, f) ↦ elim (Option-cases (follow go prevs (id head.ref) (length prevs - 1))) [
          | inl g ↦ absurd (ground arith)
          | inr (rest, g) ↦
              let (chained, known) =
                follow-Chained obj prevs (id head.ref) (length prevs - 1) rest h g in
              let met = range-All (Prev obj) go.range_records prevs go.range_records-IsRange h in
              let first = find_head-IsStateOf obj refs (go.range_records prevs) head met f in
              let same : head ∷ rest ≡ run = ground arith in
              subst (λ o. IsRunOf (obj, o)) same (chained, (first, known))
        ]
      ]
    ]

    order_objects-Runs :
        (by_prev objects : Map Text ByKey) (sorted out : List CanonicalRecord)
        → All (IsObject go all_records (λ r. r.prev_record_reference)) by_prev
        → All (IsObject go all_records (λ r. r.ref)) objects
        → order_objects go by_prev objects sorted ≡ some out
        → (runs : Map Text (List CanonicalRecord)) × (out ≡ sorted ++ joined runs)
          × (keys runs ≡ keys objects)
          × All IsRunOf runs
    unfolding order_objects
    order_objects-Runs by_prev [] sorted out h k e =
        ([], sym (some-injective sorted out e) ∙ sym (append-nil sorted), refl, tt)
    order_objects-Runs by_prev ((obj, refs) ∷ objects) sorted out h k e =
        elim (Option-cases (order_object go (or_nil (lookup obj by_prev)) refs)) [
          | inl f ↦ absurd (ground arith)
          | inr (run, f) ↦
              let later : order_objects go by_prev objects (sorted ++ run) ≡ some out =
                ground arith in
              let prevs =
                lookup-IsObject go all_records (λ r. r.prev_record_reference) obj by_prev h in
              let is_run =
                order_object-IsRunOf obj (or_nil (lookup obj by_prev)) refs run prevs k.0 f in
              let (runs, same, same_keys, are_runs) =
                order_objects-Runs by_prev objects (sorted ++ run) out h k.1 later in
              (
                (obj, run) ∷ runs,
                same ∙ append_assoc sorted run (joined runs),
                ap (λ ks. obj ∷ ks) same_keys,
                (is_run, are_runs),
              )
        ]

    -- One run for each object of a state, and no object twice.
    abbrev pub AreRuns : Map Text (List CanonicalRecord) → Type 0
    AreRuns runs =
        NoRepeat (keys runs)
        × ((r : CanonicalRecord)
            → In r all_records
            → is_state r.record_type ≡ true
            → In (id r.object_reference) (keys runs))
        × All IsRunOf runs

    ordered-AreRuns :
        (sorted out : List CanonicalRecord) (maps : Maps)
        → maps ≡ init_records_maps_by_obj go all_records no_maps
        → order_objects go maps.by_prev_ref (go.range_objects maps.by_ref) sorted ≡ some out
        → (runs : Map Text (List CanonicalRecord)) × (out ≡ sorted ++ joined runs) × AreRuns runs
    ordered-AreRuns sorted out maps own e =
        let made = init-AreEntries go all_records all_records no_maps (λ r m. m) (tt, tt, tt) in
        let (prevs, refs, _) = subst (AreEntries go all_records) (sym own) made in
        let order = go.range_objects-IsRange in
        let met =
          range-All (IsObject go all_records (λ r. r.ref)) go.range_objects maps.by_ref order
            refs in
        let (runs, same, same_keys, are_runs) =
          order_objects-Runs maps.by_prev_ref (go.range_objects maps.by_ref) sorted out prevs met
            e in
        let once : NoRepeat (keys maps.by_ref) =
          subst (λ (m : Maps). NoRepeat (keys m.by_ref)) (sym own)
            (init-NoRepeat go all_records no_maps tt) in
        (
          runs,
          same,
          (
            subst NoRepeat (sym same_keys) (order.met_once maps.by_ref once),
            λ r m s. subst (In (id r.object_reference)) (sym same_keys) (
                order.all_met maps.by_ref (id r.object_reference) (
                  subst (λ (x : Maps). In (id r.object_reference) (keys x.by_ref)) (sym own)
                    (init-key go all_records no_maps r m s))),
            are_runs,
          ),
        )

  not_state_kept :
      (records : List CanonicalRecord) (maps : Maps)
      → (init_records_maps_by_obj go records maps).not_state ≡ maps.not_state ++ others records
  unfolding init_records_maps_by_obj add_record
  not_state_kept [] maps = sym (append-nil maps.not_state)
  not_state_kept (r ∷ records) maps =
      not_state_kept records (add_record go r maps) ∙ elim (Bool-cases (is_state r.record_type)) [
        | inl b ↦
            let rest : others (r ∷ records) ≡ others records = ground arith in
            rw (b, add_record) (ap (λ l. maps.not_state ++ l) (sym rest))
        | inr b ↦
            let rest : others (r ∷ records) ≡ r ∷ others records = ground arith in
            rw (b, add_record)
              (append_assoc maps.not_state (r ∷ []) (others records)
                ∙ ap (λ l. maps.not_state ++ l) (sym rest))
      ]

-- When `sortRecords` gives no error, its result has as many records as there were. First come those
-- that are no states, in their order; then one run of records for each object that has a state, no
-- object twice: a run has states of its object only, all of them among the given records, and each
-- record in it has the one before it as its previous state. So it is in whatever order the two maps
-- are gone over.
pub sort_records-Runs :
    (go : Runtime) (records sorted : List CanonicalRecord)
    → sort_records go records ≡ some sorted
    → (length sorted ≡ length records)
      × ((runs : Map Text (List CanonicalRecord)) × (sorted ≡ others records ++ joined runs)
          × AreRuns go records runs)
unfolding sort_records
sort_records-Runs go records sorted e =
    let maps = init_records_maps_by_obj go records no_maps in
    let ordered = order_objects go maps.by_prev_ref (go.range_objects maps.by_ref) maps.not_state in
    elim (Option-cases ordered) [
      | inl f ↦ absurd (ground arith)
      | inr (out, f) ↦ elim (Bool-cases (length records == length out)) [
        | inr b ↦ absurd (ground arith)
        | inl b ↦
            let same : out ≡ sorted = ground arith in
            let (runs, parts, are_runs) =
              ordered-AreRuns go records maps.not_state out maps refl f in
            (
              sym (==_true (length records) (length out) b ∙ ap length same),
              (
                runs,
                sym same ∙ parts ∙ ap (λ l. l ++ joined runs) (not_state_kept go records no_maps),
                are_runs,
              ),
            )
      ]
    ]
