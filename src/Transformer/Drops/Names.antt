-- ===== src/Transformer/Drops/Names.antt =====
-- What is in the jet drops that `Transform` makes: the records of their jets, under names that the
-- API reads back.
use mathlib.Core.Option.{some-injective}
use block_explorer.Prelude.{
  ◌≤◌, ◌<◌, ◌^◌, ◌≡◌, refl, sym, ap, ◌∙◌, subst, inl, inr, Bool, true, not, some, List, [], ◌∷◌,
  Text, arith, all, All, All-append, All-intro, All-In, In, Map, length, select, if_elim,
  Bool-cases, Option-cases, pos,
}
use block_explorer.Models.{CanonicalRecord, CanonicalJetDrop}
use block_explorer.Models.JetDropId.{
  JetDropId, IsValid, is_bit, new_jet_drop_id_from_string, to_string, from_string-to_string,
}
use block_explorer.Platform.{Jet, PlatformPulseData}
use block_explorer.Converter.JetNames.{jet_id_to_string-AreBits}
use block_explorer.Transformer.{Runtime, is_state, sort_records}
use block_explorer.Transformer.Entries.{IsStateOf}
use block_explorer.Transformer.Runs.{joined, others, IsRunOf, sort_records-Runs}
use block_explorer.Transformer.Records.{Ids}
use block_explorer.Transformer.Drops.{get_pulse_data, jet_name, get_jet_drop, transform}
use block_explorer.Transformer.Drops.ByJets.{
  has_raw_data, records_of, sorted_drops, transform-sorted_drops,
}

select-In : {A : Type 0} (p : A → Bool) (xs : List A) (a : A) → In a (select p xs) → In a xs
select-In p [] a m = m
select-In p (x ∷ xs) a m = elim (Bool-cases (p x)) [
  | inl b ↦ elim (rw (b, select) at m) [ inl e ↦ inl e | inr k ↦ inr (select-In p xs a k) ]
  | inr b ↦ inr (select-In p xs a (rw (b, select) at m))
]

joined-All :
    (go : Runtime) (records : List CanonicalRecord) (runs : Map Text (List CanonicalRecord))
    → All (IsRunOf go records) runs
    → All (λ r. In r records) (joined runs)
joined-All go records [] h = tt
joined-All go records ((obj, run) ∷ runs) h =
    All-append (λ r. In r records) run (joined runs)
      (All-intro (λ r. In r records) run
        (λ r m. (All-In (IsStateOf go records obj) run r h.0.1 m).0))
      (joined-All go records runs h.1)

sorted-All :
    (go : Runtime) (records sorted : List CanonicalRecord)
    → sort_records go records ≡ some sorted
    → (length sorted ≡ length records) × All (λ r. In r records) sorted
sorted-All go records sorted e =
    let (long, (runs, same, (once, full, known))) = sort_records-Runs go records sorted e in
    (
      long,
      subst (All (λ r. In r records)) (sym same) (
          All-append (λ r. In r records) (others records) (joined runs)
            (All-intro (λ r. In r records) (others records)
              (λ r m. select-In (λ r. not (is_state r.record_type)) records r m))
            (joined-All go records runs known)),
    )

-- The name of a jet drop.
abbrev pub name_of : CanonicalJetDrop → JetDropId
name_of d = record {
  jet_id = d.main_section.start.jet_drop_prefix;
  pulse_number = d.main_section.start.pulse_data.pulse_no;
}

module _ (go : Runtime) (ids : Ids) where
  -- A jet drop of a jet of the pulse, with as many records as that jet has, all of them the jet's.
  abbrev pub IsOf : PlatformPulseData → CanonicalJetDrop → Type 0
  IsOf jd d =
      (jet : Jet) × In jet jd.pulse.jets
      × (name_of d ≡ record {
        jet_id = jet_name go ids jet.jet_id;
        pulse_number = pos jd.pulse.pulse_number;
      })
      × (length d.main_section.records ≡ length (records_of ids jet.jet_id jd.records))
      × All (λ r. In r (records_of ids jet.jet_id jd.records)) d.main_section.records

  made-IsOf :
      (jd : PlatformPulseData) (jet : Jet) (d : CanonicalJetDrop)
      → In jet jd.pulse.jets
      → get_jet_drop go ids jet
          (records_of ids jet.jet_id jd.records)
          (get_pulse_data go ids jd.pulse)
        ≡ some d
      → IsOf jd d
  unfolding get_jet_drop get_pulse_data
  made-IsOf jd jet d i e =
      elim (Option-cases (sort_records go (records_of ids jet.jet_id jd.records))) [
        | inl f ↦ absurd (ground arith)
        | inr (sorted, f) ↦
            let (long, known) = sorted-All go (records_of ids jet.jet_id jd.records) sorted f in
            let same = some-injective _ d (rw (f, get_jet_drop) at e) in
            subst (IsOf jd) same (jet, i, refl, long, known)
      ]

  sorted_drops-IsOf :
      (jets : List Jet) (jd : PlatformPulseData) (d : CanonicalJetDrop)
      → ((jet : Jet) → In jet jets → In jet jd.pulse.jets)
      → In d (sorted_drops ids go jets jd)
      → IsOf jd d
  unfolding sorted_drops
  sorted_drops-IsOf [] jd d sub m = absurd m
  sorted_drops-IsOf (jet ∷ jets) jd d sub m =
      let made =
        get_jet_drop go ids jet (records_of ids jet.jet_id jd.records)
          (get_pulse_data go ids jd.pulse) in
      let later = sorted_drops-IsOf jets jd d (λ j k. sub j (inr k)) in
      elim (Option-cases made) [
        | inl e ↦ later (rw (e, sorted_drops) at m)
        | inr (drop, e) ↦ elim (rw (e, sorted_drops) at m) [
          | inl same ↦ made-IsOf jd jet d (sub jet (inl refl)) (e ∙ ap some (sym same))
          | inr k ↦ later k
        ]
      ]

  transformed :
      (jd : PlatformPulseData) (drops : List CanonicalJetDrop)
      → transform go ids jd ≡ some drops
      → sorted_drops ids go jd.pulse.jets jd ≡ drops
  transformed jd drops e =
      let known = sym (transform-sorted_drops ids go jd) ∙ e in
      elim (Bool-cases (all has_raw_data jd.records)) [
        | inl b ↦ some-injective _ drops (rw b at known)
        | inr b ↦ absurd (ground arith)
      ]

  -- Each jet drop that `Transform` makes is of a jet of the pulse and bears that jet's name and the
  -- pulse's number; it has as many records as the platform has sent supported ones for this jet, and
  -- has no others.
  pub transform-IsOf :
      (jd : PlatformPulseData) (drops : List CanonicalJetDrop) (d : CanonicalJetDrop)
      → transform go ids jd ≡ some drops
      → In d drops
      → IsOf jd d
  transform-IsOf jd drops d e m =
      sorted_drops-IsOf jd.pulse.jets jd d (λ j k. k)
        (subst (In d) (sym (transformed jd drops e)) m)

  jet_name-AreBits :
      (jet_id : Text)
      → ids.depth jet_id ≤ 216
      → (all is_bit (jet_name go ids jet_id) ≡ true) × (length (jet_name go ids jet_id) ≤ 216)
  unfolding jet_name
  jet_name-AreBits jet_id short =
      let (bits, long) = jet_id_to_string-AreBits (ids.depth jet_id) (ids.prefix jet_id) in
      if_elim (λ (s : Text). (all is_bit s ≡ true) × (length s ≤ 216)) (ids.is_valid jet_id) _ []
        (λ b. (bits, omega arith)) (λ b. (refl, omega arith))

  -- The names of jet drops are bits.
  pub transformed-AreBits :
      (jd : PlatformPulseData) (drops : List CanonicalJetDrop) (d : CanonicalJetDrop)
      → transform go ids jd ≡ some drops
      → In d drops
      → all is_bit d.main_section.start.jet_drop_prefix ≡ true
  unfolding jet_name
  transformed-AreBits jd drops d e m =
      let (jet, i, named, _, _) = transform-IsOf jd drops d e m in
      let own : d.main_section.start.jet_drop_prefix ≡ jet_name go ids jet.jet_id =
        ap (λ (x : JetDropId). x.jet_id) named in
      subst (λ s. all is_bit s ≡ true) (sym own)
        (if_elim (λ (s : Text). all is_bit s ≡ true) (ids.is_valid jet.jet_id) _ []
          (λ b. (jet_id_to_string-AreBits (ids.depth jet.jet_id) (ids.prefix jet.jet_id)).0)
          (λ b. refl))

  -- The name of each jet drop that `Transform` makes, printed as the API shows it, is read back as that
  -- name, where no jet is deeper than 216 and the number of the pulse has 32 bits.
  pub from_string-transformed :
      (jd : PlatformPulseData) (drops : List CanonicalJetDrop) (d : CanonicalJetDrop)
      → ((jet_id : Text) → ids.depth jet_id ≤ 216)
      → jd.pulse.pulse_number < 2 ^ 32
      → transform go ids jd ≡ some drops
      → In d drops
      → new_jet_drop_id_from_string (to_string (name_of d)) ≡ some (name_of d)
  from_string-transformed jd drops d short small e m =
      let (jet, i, named, _, _) = transform-IsOf jd drops d e m in
      let (bits, long) = jet_name-AreBits jet.jet_id (short jet.jet_id) in
      from_string-to_string (name_of d)
        (subst IsValid (sym named) (record { bits = bits; short = long; in_range = omega arith }))
