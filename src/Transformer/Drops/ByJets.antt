-- ===== src/Transformer/Drops/ByJets.antt =====
-- The jet drops of a pulse against a description without maps: for each jet of the pulse, in their
-- order, the records of that jet, sorted.
use mathlib.Core.List.{append_assoc, append-nil}
use block_explorer.Prelude.{
  ◌≡◌, ◌⊎◌, refl, sym, ap, ◌∙◌, inl, inr, Bool, true, false, none, some, List, [], ◌∷◌, ◌++◌, Text,
  arith, all, lookup, insert, lookup-insert, list_eq, nat_eq, ◌==◌, ==_true, if◌then◌else◌,
  Bool-cases, Option-cases, List-cases,
}
use block_explorer.Models.{CanonicalRecord, CanonicalJetDrop}
use block_explorer.Platform.{
  Jet, Virtual, activate, amend, deactivate, result, incoming_request, outgoing_request, other,
  PlatformRecord, PlatformPulseData,
}
use block_explorer.Transformer.{Runtime}
use block_explorer.Transformer.Records.{
  Ids, ByJet, canonical, unsupported, no_raw_data, or_empty, by_kind, transfer_to_canonical_record,
  without_records, collect_record, collect_records, get_records,
}
use block_explorer.Transformer.Drops.{get_pulse_data, get_jet_drop, add_jets, jet_drops, transform}

abbrev pub has_raw_data : PlatformRecord → Bool
has_raw_data r = elim r.raw_data [ none ↦ false | some raw_data ↦ true ]

module _ (ids : Ids) where
  -- The canonical records of one jet.
  unfoldable pub records_of : Text → List PlatformRecord → List CanonicalRecord
  records_of jet_id [] = []
  records_of jet_id (r ∷ records) =
      let rest = records_of jet_id records in
      elim (transfer_to_canonical_record ids r) [
        | canonical c ↦ if r.jet_id == jet_id then c ∷ rest else rest
        | unsupported ↦ rest
        | no_raw_data ↦ rest
      ]

  collect_record-lookup :
      (j k : Text) (c : CanonicalRecord) (res : ByJet)
      → or_empty (lookup j (collect_record ids k c res))
        ≡ or_empty (lookup j res) ++ (if k == j then c ∷ [] else [])
  unfolding collect_record
  collect_record-lookup j k c res =
      rw (lookup-insert k j (or_empty (lookup k res) ++ c ∷ []) res) (elim (Bool-cases (k == j)) [
        | inl b ↦ rw b (rw (==_true k j b) refl)
        | inr b ↦ rw b (sym (append-nil _))
      ])

  by_kind_cases :
      (v : Virtual) (r : PlatformRecord) (raw_data : Text)
      → ((c : CanonicalRecord) × (by_kind ids v r raw_data ≡ canonical c))
        ⊎ (by_kind ids v r raw_data ≡ unsupported)
  unfolding by_kind
  by_kind_cases (activate image memory req) r raw_data = inl (_, refl)
  by_kind_cases (amend image memory prev_state_id req) r raw_data = inl (_, refl)
  by_kind_cases (deactivate prev_state_id) r raw_data = inl (_, refl)
  by_kind_cases (result payload object) r raw_data = inl (_, refl)
  by_kind_cases (incoming_request method) r raw_data = inl (_, refl)
  by_kind_cases outgoing_request r raw_data = inl (_, refl)
  by_kind_cases other r raw_data = inr refl

  transferred_cases :
      (r : PlatformRecord)
      → ((c : CanonicalRecord) × (transfer_to_canonical_record ids r ≡ canonical c)
          × (has_raw_data r ≡ true))
        ⊎ ((transfer_to_canonical_record ids r ≡ unsupported) × (has_raw_data r ≡ true))
        ⊎ ((transfer_to_canonical_record ids r ≡ no_raw_data) × (has_raw_data r ≡ false))
  unfolding transfer_to_canonical_record
  transferred_cases r = elim (Option-cases r.raw_data) [
    | inl e ↦ inr (inr ((ground arith), rw e refl))
    | inr (raw_data, e) ↦ elim (by_kind_cases r.virtual r raw_data) [
      | inl (c, k) ↦ inl (c, (ground arith), rw e refl)
      | inr k ↦ inr (inl ((ground arith), rw e refl))
    ]
  ]

  -- The loop fails exactly on a record without raw data, and else leaves each jet its records.
  collect_records_lem :
      (records : List PlatformRecord) (res : ByJet)
      → ((collect_records ids records res ≡ none) × (all has_raw_data records ≡ false))
        ⊎ ((m : ByJet) × (collect_records ids records res ≡ some m)
            × (all has_raw_data records ≡ true)
            × ((j : Text)
                → or_empty (lookup j m) ≡ or_empty (lookup j res) ++ records_of j records))
  unfolding collect_records records_of
  collect_records_lem [] res = inr (res, refl, refl, λ j. sym (append-nil _))
  collect_records_lem (r ∷ records) res = elim (transferred_cases r) [
    | inl (c, t, h) ↦
        rw (t, h, collect_records, records_of)
          (elim (collect_records_lem records (collect_record ids r.jet_id c res)) [
            | inl failed ↦ inl failed
            | inr (m, e, a, at) ↦ inr (
              m,
              e,
              a,
              λ j.
                  at j
                  ∙ ap (λ l. l ++ records_of j records) (collect_record-lookup j r.jet_id c res)
                  ∙ elim (Bool-cases (r.jet_id == j)) [
                    | inl b ↦
                        rw b
                          (append_assoc (or_empty (lookup j res)) (c ∷ []) (records_of j records))
                    | inr b ↦ rw b (ap (λ l. l ++ records_of j records) (append-nil _))
                  ],
            )
          ])
    | inr (inl (t, h)) ↦ rw (t, h, collect_records, records_of) (collect_records_lem records res)
    | inr (inr (t, h)) ↦ rw (t, h, collect_records, records_of) (inl (refl, refl))
  ]

  without_records-lookup :
      (jets : List Jet) (res : ByJet) (j : Text)
      → or_empty (lookup j res) ≡ []
      → or_empty (lookup j (without_records ids jets res)) ≡ []
  unfolding without_records
  without_records-lookup [] res j h = h
  without_records-lookup (jet ∷ jets) res j h =
      without_records-lookup jets (insert jet.jet_id [] res) j (
        rw (lookup-insert jet.jet_id j [] res)
          (elim (Bool-cases (jet.jet_id == j)) [ inl b ↦ rw b refl | inr b ↦ rw b h ]))

  get_records_lem :
      (jd : PlatformPulseData)
      → ((get_records ids jd ≡ none) × (all has_raw_data jd.records ≡ false))
        ⊎ ((m : ByJet) × (get_records ids jd ≡ some m)
            × (all has_raw_data jd.records ≡ true)
            × ((j : Text) → or_empty (lookup j m) ≡ records_of j jd.records))
  unfolding get_records records_of
  get_records_lem jd = elim (List-cases jd.records) [
    | inl e ↦ inr (
      without_records ids jd.pulse.jets [],
      (ground arith),
      rw e refl,
      λ j. without_records-lookup jd.pulse.jets [] j refl ∙ sym (rw e refl),
    )
    | inr (r, records, e) ↦ rw e (collect_records_lem (r ∷ records) [])
  ]

  module _ (go : Runtime) where
    add_jets-lookup :
        (jets : List Jet) (m : ByJet) (j : Text)
        → or_empty (lookup j (add_jets go ids jets m)) ≡ or_empty (lookup j m)
    unfolding add_jets
    add_jets-lookup [] m j = refl
    add_jets-lookup (jet ∷ jets) m j = elim (Option-cases (lookup jet.jet_id m)) [
      | inr (records, e) ↦ rw (e, add_jets) (add_jets-lookup jets m j)
      | inl e ↦
          rw (e, add_jets)
            (add_jets-lookup jets (insert jet.jet_id [] m) j
              ∙ rw (lookup-insert jet.jet_id j [] m) (elim (Bool-cases (jet.jet_id == j)) [
                | inl b ↦ rw b (rw (← ==_true jet.jet_id j b) (rw e refl))
                | inr b ↦ rw b refl
              ]))
    ]

    -- For each jet in turn its records, sorted, unless they cannot be.
    unfoldable pub sorted_drops : List Jet → PlatformPulseData → List CanonicalJetDrop
    sorted_drops [] jd = []
    sorted_drops (jet ∷ jets) jd =
        let rest = sorted_drops jets jd in
        elim (get_jet_drop go ids jet (records_of jet.jet_id jd.records)
          (get_pulse_data go ids jd.pulse)) [ none ↦ rest | some drop ↦ drop ∷ rest ]

    jet_drops-sorted_drops :
        (jets : List Jet) (m : ByJet) (jd : PlatformPulseData)
        → ((j : Text) → or_empty (lookup j m) ≡ records_of j jd.records)
        → jet_drops go ids jets m (get_pulse_data go ids jd.pulse) ≡ sorted_drops jets jd
    unfolding jet_drops sorted_drops
    jet_drops-sorted_drops [] m jd h = refl
    jet_drops-sorted_drops (jet ∷ jets) m jd h =
        let made =
          get_jet_drop go ids jet (records_of jet.jet_id jd.records)
            (get_pulse_data go ids jd.pulse) in
        let rest = jet_drops-sorted_drops jets m jd h in
        elim (Option-cases made) [
          | inl e ↦ rw (h jet.jet_id, jet_drops) (rw (e, sorted_drops) rest)
          | inr (drop, e) ↦
              rw (h jet.jet_id, jet_drops) (rw (e, sorted_drops) (ap (λ l. drop ∷ l) rest))
        ]

    -- `Transform` fails exactly when a record of the pulse has no raw data; else it makes, for each jet
    -- of the pulse in their order, a jet drop of the supported records of that jet, in the order
    -- that sorting gives them, and leaves out the jets whose records cannot be sorted.
    pub transform-sorted_drops :
        (jd : PlatformPulseData)
        → transform go ids jd
          ≡ (if all has_raw_data jd.records then some (sorted_drops jd.pulse.jets jd) else none)
    unfolding transform
    transform-sorted_drops jd = elim (get_records_lem jd) [
      | inl (e, a) ↦ rw (e, a, transform) refl
      | inr (m, e, a, at) ↦
          rw (e, a, transform)
            (ap some (
              jet_drops-sorted_drops jd.pulse.jets (add_jets go ids jd.pulse.jets m) jd
                λ j. add_jets-lookup jd.pulse.jets m j ∙ at j))
    ]
