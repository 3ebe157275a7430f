-- ===== src/Storage/Kept.antt =====
-- A jet drop that is saved stays, whatever is written after it.
use block_explorer.Prelude.{
  ℕ, ◌≡◌, refl, inl, inr, Option, none, some, List, arith, Text, ℤ, length, ◌==◌, nat_eq,
  Bool-cases, Option-cases, if_elim,
}
use block_explorer.Models.{Record, JetDrop}
use block_explorer.Interfaces.{DbError, SavedLaws}
use block_explorer.Storage.{Gorm}
use block_explorer.Storage.Writes.{
  WriteError, saving_jet_drop, updating_pulse, Statements, while_saving_jet_drop, and_then,
  statement, save_records, init_jd, update_jd, save_jet_drop_data, save_pulse, one_row,
  complete_pulse, sequence_pulse,
}
use block_explorer.Storage.Service.{service, seen}
use block_explorer.Storage.Writes.Keeping.{
  RowLaws, Keeps, Makes, and_then-Keeps, transaction-Keeps, save_records-Keeps, and_then-Makes,
  transaction-Makes, statement-Makes,
}

module _ (sql : Statements) (IsSaved : ℤ → Text → sql.State → Type 0)
    (laws : RowLaws sql IsSaved) where
  tail-Keeps :
      (records : List Record) (n : ℤ)
      → Keeps sql IsSaved laws (
          and_then sql
            (save_records sql records)
            (statement sql updating_pulse (sql.add_amounts n (length records))))
  tail-Keeps records n =
      and_then-Keeps sql IsSaved laws (save_records sql records) _
        (save_records-Keeps sql IsSaved laws records) (laws.add_amounts_keeps n (length records))

  init_jd-Keeps :
      (d : JetDrop) (records : List Record) (n : ℤ)
      → Keeps sql IsSaved laws (init_jd sql d records n)
  unfolding init_jd
  init_jd-Keeps d records n = transaction-Keeps sql IsSaved laws _ (
      and_then-Keeps sql IsSaved laws (statement sql saving_jet_drop (sql.create_jet_drop d)) _
        (laws.create_jet_drop_keeps d) (tail-Keeps records n))

  update_jd-Keeps :
      (d : JetDrop) (records : List Record) → Keeps sql IsSaved laws (update_jd sql d records)
  unfolding update_jd
  update_jd-Keeps d records = transaction-Keeps sql IsSaved laws _ (
      and_then-Keeps sql IsSaved laws (statement sql saving_jet_drop (sql.save_jet_drop d)) _
        (laws.save_jet_drop_keeps d) (save_records-Keeps sql IsSaved laws records))

  init_jd-Makes :
      (d : JetDrop) (records : List Record) (n : ℤ)
      → Makes sql IsSaved laws d.pulse_number d.jet_id (init_jd sql d records n)
  unfolding init_jd
  init_jd-Makes d records n = transaction-Makes sql IsSaved laws d.pulse_number d.jet_id _ (
      and_then-Makes sql IsSaved laws d.pulse_number d.jet_id
        (statement sql saving_jet_drop (sql.create_jet_drop d)) _
        (statement-Makes sql IsSaved laws d.pulse_number d.jet_id saving_jet_drop
          (sql.create_jet_drop d) (laws.created d))
        (tail-Keeps records n))

  update_jd-Makes :
      (d : JetDrop) (records : List Record)
      → Makes sql IsSaved laws d.pulse_number d.jet_id (update_jd sql d records)
  unfolding update_jd
  update_jd-Makes d records = transaction-Makes sql IsSaved laws d.pulse_number d.jet_id _ (
      and_then-Makes sql IsSaved laws d.pulse_number d.jet_id
        (statement sql saving_jet_drop (sql.save_jet_drop d)) _
        (statement-Makes sql IsSaved laws d.pulse_number d.jet_id saving_jet_drop
          (sql.save_jet_drop d) (laws.updated d))
        (save_records-Keeps sql IsSaved laws records))

  save_jet_drop_data-Keeps :
      (d : JetDrop) (records : List Record) (n : ℤ)
      → Keeps sql IsSaved laws (save_jet_drop_data sql d records n)
  unfolding save_jet_drop_data
  save_jet_drop_data-Keeps d records n s m j h =
      let kept = init_jd-Keeps d records n s m j h in
      elim (Option-cases (init_jd sql d records n s).0) [
        | inl e ↦ rw (e, save_jet_drop_data) kept
        | inr (x, e) ↦ elim (Bool-cases (while_saving_jet_drop x)) [
          | inl b ↦
              rw (e, save_jet_drop_data)
                (rw b (update_jd-Keeps d records (init_jd sql d records n s).1 m j kept))
          | inr b ↦ rw (e, save_jet_drop_data) (rw b kept)
        ]
      ]

  save_jet_drop_data-Makes :
      (d : JetDrop) (records : List Record) (n : ℤ)
      → Makes sql IsSaved laws d.pulse_number d.jet_id (save_jet_drop_data sql d records n)
  unfolding save_jet_drop_data
  save_jet_drop_data-Makes d records n s made = elim (Option-cases (init_jd sql d records n s).0) [
    | inl e ↦ rw (e, save_jet_drop_data) (init_jd-Makes d records n s e)
    | inr (x, e) ↦ elim (Bool-cases (while_saving_jet_drop x)) [
      | inl b ↦
          rw (e, save_jet_drop_data)
            (rw b (
              update_jd-Makes d records (init_jd sql d records n s).1
                (rw b at (rw (e, save_jet_drop_data) at made))))
      | inr b ↦
          let wrong : some x ≡ none = rw b at (rw (e, save_jet_drop_data) at made) in
          absurd (ground arith)
    ]
  ]

  one_row-Keeps :
      (n : ℤ) (update : sql.State → (Option DbError × ℕ) × sql.State)
      → ((s : sql.State) (m : ℤ) (j : Text) → IsSaved m j s → IsSaved m j (update s).1)
      → Keeps sql IsSaved laws (one_row sql n update)
  one_row-Keeps n update k s m j h =
      let kept = k s m j h in
      elim (Option-cases (update s).0.0) [
        | inr (x, e) ↦ rw (e, one_row) kept
        | inl e ↦
            rw (e, one_row)
              (if_elim (λ (o : Option WriteError × sql.State). IsSaved m j o.1)
                ((update s).0.1 == 0) _ _ (λ z. kept)
                (λ z.
                  if_elim (λ (o : Option WriteError × sql.State). IsSaved m j o.1)
                    ((update s).0.1 == 1) _ _ (λ y. kept) (λ y. kept)))
      ]

unfoldable pub KeepsSaved :
    (sql : Statements) → (sql.State → Gorm) → (ℤ → Text → sql.State → Type 0) → Type 0
unfolding service
KeepsSaved sql reads IsSaved = SavedLaws (service sql reads) IsSaved

-- Over statements that leave a jet drop in the table when they write it and never remove one, the
-- storage promises the same of its transactions: a jet drop that `SaveJetDropData` saves without an
-- error, at first or as an update, is there, and neither it nor the writes of pulses lose one.
pub service-SavedLaws :
    (sql : Statements) (reads : sql.State → Gorm) (IsSaved : ℤ → Text → sql.State → Type 0)
    → RowLaws sql IsSaved
    → KeepsSaved sql reads IsSaved
unfolding KeepsSaved service complete_pulse sequence_pulse save_pulse
service-SavedLaws sql reads IsSaved laws = record {
  saved = λ d records n s e.
      seen_made d (save_jet_drop_data sql d records n s)
        (save_jet_drop_data-Makes sql IsSaved laws d records n s) e;
  save_jet_drop_data_keeps = λ d records n s m j h.
      seen_kept m j (save_jet_drop_data sql d records n s)
        (save_jet_drop_data-Keeps sql IsSaved laws d records n s m j h);
  save_pulse_keeps = λ p s m j h. seen_kept m j _ (laws.upsert_pulse_keeps p s m j h);
  complete_pulse_keeps = λ n s m j h. seen_kept m j (complete_pulse sql n s) (
      transaction-Keeps sql IsSaved laws (one_row sql n (sql.set_complete n))
        (one_row-Keeps sql IsSaved laws n (sql.set_complete n) (laws.set_complete_keeps n)) s m j
        h);
  sequence_pulse_keeps = λ n s m j h. seen_kept m j (sequence_pulse sql n s) (
      transaction-Keeps sql IsSaved laws (one_row sql n (sql.set_sequential n))
        (one_row-Keeps sql IsSaved laws n (sql.set_sequential n) (laws.set_sequential_keeps n)) s m
        j h);
}
  where
    seen_kept :
        (m : ℤ) (j : Text) (o : Option WriteError × sql.State)
        → IsSaved m j o.1
        → IsSaved m j (seen o).1
    seen_kept m j (none, s) h = h
    seen_kept m j (some e, s) h = h

    seen_made :
        (d : JetDrop) (o : Option WriteError × sql.State)
        → (o.0 ≡ none → IsSaved d.pulse_number d.jet_id o.1)
        → (seen o).0 ≡ none
        → IsSaved d.pulse_number d.jet_id (seen o).1
    seen_made d (none, s) h e = h refl
    seen_made d (some x, s) h e = absurd (ground arith)
