-- ===== src/Storage/Writes/Transactions.antt =====
-- What the transactions of the writes promise.
use mathlib.Core.Path.{ap₂}
use block_explorer.Prelude.{
  ℕ, ◌≡◌, refl, sym, ap, ◌∙◌, ◌⊎◌, inl, inr, Bool, true, false, Option, none, some, List, [], ◌∷◌,
  arith, ℤ, Bool-cases, Option-cases, ◌==◌, ==_true, nat_eq,
}
use block_explorer.Models.{Record, JetDrop}
use block_explorer.Interfaces.{DbError}
use block_explorer.Storage.Writes.{
  WriteError, saving_jet_drop, saving_record, Statements, Write, and_then, statement, transaction,
  save_records, init_jd, update_jd, while_saving_jet_drop, save_jet_drop_data, one_row,
  complete_pulse,
}

-- What the database promises of the keys and of the counter of a pulse: a row is created only where
-- there is none, and the counter is changed by its own statement only.
pub record CounterLaws (sql : Statements) (has : JetDrop → sql.State → Bool) (count : sql.State → ℕ)
    : Type 0 where
  pub created : (d : JetDrop) (s : sql.State) → (sql.create_jet_drop d s).0 ≡ none → has d s ≡ false
  pub saved : (d : JetDrop) (s : sql.State) → count (sql.save_jet_drop d s).1 ≡ count s
  pub record_saved : (r : Record) (s : sql.State) → count (sql.save_record r s).1 ≡ count s
  pub committed : (s : sql.State) → count (sql.commit s).1 ≡ count s

true-false : true ≡ false → ⊥
true-false e = ground arith

module _ (sql : Statements) where
  transaction_failed :
      (body : Write sql) (s : sql.State) (e : WriteError)
      → (transaction sql body s).0 ≡ some e
      → (transaction sql body s).1 ≡ s
  unfolding transaction
  transaction_failed body s e f = ground arith

  transaction_done :
      (body : Write sql) (s : sql.State)
      → (transaction sql body s).0 ≡ none
      → ((body s).0 ≡ none) × ((transaction sql body s).1 ≡ (sql.commit (body s).1).1)
  unfolding transaction
  transaction_done body s f = (ground arith, ground arith)

  init_failed :
      (d : JetDrop) (records : List Record) (n : ℤ) (s : sql.State) (e : WriteError)
      → (init_jd sql d records n s).0 ≡ some e
      → (init_jd sql d records n s).1 ≡ s
  unfolding init_jd
  init_failed d records n s e f = transaction_failed _ s e f

  and_then_done :
      (first second : Write sql) (s : sql.State)
      → (and_then sql first second s).0 ≡ none
      → ((first s).0 ≡ none) × (and_then sql first second s ≡ second (first s).1)
  unfolding and_then
  and_then_done first second s f = (ground arith, ground arith)

  -- The three ways through `SaveJetDropData`.
  abbrev Saved : JetDrop → List Record → ℤ → sql.State → Type 0
  Saved d records n s =
      ((init_jd sql d records n s).0 ≡ none)
      ⊎ ((save_jet_drop_data sql d records n s ≡ update_jd sql d records s)
          ⊎ ((e : WriteError) × ((save_jet_drop_data sql d records n s).0 ≡ some e)
              × ((save_jet_drop_data sql d records n s).1 ≡ s)))

  save_jet_drop_data-Saved :
      (d : JetDrop) (records : List Record) (n : ℤ) (s : sql.State) → Saved d records n s
  unfolding save_jet_drop_data
  save_jet_drop_data-Saved d records n s = elim (Option-cases (init_jd sql d records n s).0) [
    | inl f ↦ inl f
    | inr (e, f) ↦
        let back : (init_jd sql d records n s).1 ≡ s = init_failed d records n s e f in
        elim (Bool-cases (while_saving_jet_drop e)) [
          | inl b ↦
              inr (inl (rw (f, save_jet_drop_data) (rw b (ap (update_jd sql d records) back))))
          | inr b ↦ inr (
              inr
                (e, rw (f, save_jet_drop_data) (rw b refl), rw (f, save_jet_drop_data) (rw b back)))
        ]
  ]

-- If saving a jet drop gives an error, the database is as it was.
pub save_jet_drop_data_atomic :
    (sql : Statements) (d : JetDrop) (records : List Record) (n : ℤ) (s : sql.State)
    (e : WriteError)
    → (save_jet_drop_data sql d records n s).0 ≡ some e
    → (save_jet_drop_data sql d records n s).1 ≡ s
unfolding save_jet_drop_data update_jd
save_jet_drop_data_atomic sql d records n s e f =
    elim (save_jet_drop_data-Saved sql d records n s) [
      | inl g ↦ absurd (ground arith)
      | inr (inl g) ↦
          let failed : (update_jd sql d records s).0 ≡ some e = sym (ap (λ o. o.0) g) ∙ f in
          ap (λ o. o.1) g ∙ transaction_failed sql _ s e failed
      | inr (inr (_, _, g)) ↦ g
    ]

module _ (sql : Statements) (has : JetDrop → sql.State → Bool) (count : sql.State → ℕ)
    (laws : CounterLaws sql has count) where
  abbrev Keeps : Write sql → Type 0
  Keeps w = (s : sql.State) → count (w s).1 ≡ count s

  and_then-Keeps : (a b : Write sql) → Keeps a → Keeps b → Keeps (and_then sql a b)
  unfolding and_then
  and_then-Keeps a b h k s = elim (Option-cases (a s).0) [
    | inl f ↦ rw (f, and_then) (k (a s).1 ∙ h s)
    | inr (e, f) ↦ rw (f, and_then) (h s)
  ]

  transaction-Keeps : (body : Write sql) → Keeps body → Keeps (transaction sql body)
  unfolding transaction
  transaction-Keeps body h s = elim (Option-cases (body s).0) [
    | inr (e, f) ↦ rw (f, transaction) refl
    | inl f ↦ elim (Option-cases (sql.commit (body s).1).0) [
      | inr (e, g) ↦ rw (f, g, transaction) refl
      | inl g ↦ rw (f, g, transaction) (laws.committed (body s).1 ∙ h s)
    ]
  ]

  save_records-Keeps : (records : List Record) → Keeps (save_records sql records)
  unfolding save_records
  save_records-Keeps [] s = refl
  save_records-Keeps (r ∷ records) s =
      and_then-Keeps (statement sql saving_record (sql.save_record r)) (save_records sql records)
        (laws.record_saved r) (save_records-Keeps records) s

  update_jd-Keeps : (d : JetDrop) (records : List Record) → Keeps (update_jd sql d records)
  unfolding update_jd
  update_jd-Keeps d records = transaction-Keeps _ (
      and_then-Keeps (statement sql saving_jet_drop (sql.save_jet_drop d))
        (save_records sql records) (laws.saved d) (save_records-Keeps records))

  created_once :
      (d : JetDrop) (records : List Record) (n : ℤ) (s : sql.State)
      → (init_jd sql d records n s).0 ≡ none
      → has d s ≡ false
  unfolding init_jd
  created_once d records n s f =
      let (body, _) = transaction_done sql _ s f in
      let (first, _) =
        and_then_done sql (statement sql saving_jet_drop (sql.create_jet_drop d)) _ s body in
      laws.created d s (ground arith)

module _ (sql : Statements) where
  -- The rows saved one after the other, whatever the statements answer.
  abbrev pub rows_saved : List Record → sql.State → sql.State
  rows_saved [] s = s
  rows_saved (r ∷ records) s = rows_saved records (sql.save_record r s).1

  -- The row of the jet drop and those of its records saved, and committed.
  abbrev pub saved_anew : JetDrop → List Record → sql.State → sql.State
  saved_anew d records s = (sql.commit (rows_saved records (sql.save_jet_drop d s).1)).1

  save_records_done :
      (records : List Record) (s : sql.State)
      → (save_records sql records s).0 ≡ none
      → (save_records sql records s).1 ≡ rows_saved records s
  unfolding save_records
  save_records_done [] s e = refl
  save_records_done (r ∷ records) s e =
      let (first, rest) =
        and_then_done sql (statement sql saving_record (sql.save_record r))
          (save_records sql records) s e in
      ap (λ o. o.1) rest
      ∙ save_records_done records (sql.save_record r s).1 (sym (ap (λ o. o.0) rest) ∙ e)

  update_jd_done :
      (d : JetDrop) (records : List Record) (s : sql.State)
      → (update_jd sql d records s).0 ≡ none
      → (update_jd sql d records s).1 ≡ saved_anew d records s
  unfolding update_jd
  update_jd_done d records s e =
      let (body, committed) = transaction_done sql _ s e in
      let (first, rest) =
        and_then_done sql (statement sql saving_jet_drop (sql.save_jet_drop d))
          (save_records sql records) s body in
      committed
      ∙ ap (λ t. (sql.commit t).1)
          (ap (λ o. o.1) rest
            ∙ save_records_done records (sql.save_jet_drop d s).1 (sym (ap (λ o. o.0) rest) ∙ body))

-- A jet drop that is there already is never counted again: the counters stay, whether or not the write
-- gives an error, and if it gives none, the row of the jet drop and those of all its records have been
-- saved in this order and committed.
pub save_jet_drop_data_counts_once :
    (sql : Statements) (has : JetDrop → sql.State → Bool) (count : sql.State → ℕ)
    → CounterLaws sql has count
    → (d : JetDrop) (records : List Record) (n : ℤ) (s : sql.State) → has d s ≡ true
    → let out = save_jet_drop_data sql d records n s in
      (count out.1 ≡ count s) × (out.0 ≡ none → out.1 ≡ saved_anew sql d records s)
save_jet_drop_data_counts_once sql has count laws d records n s h = (stays, saved)
  where
    stays : count (save_jet_drop_data sql d records n s).1 ≡ count s
    stays = elim (save_jet_drop_data-Saved sql d records n s) [
      | inl g ↦ absurd (true-false (sym h ∙ created_once sql has count laws d records n s g))
      | inr (inl g) ↦ ap (λ o. count o.1) g ∙ update_jd-Keeps sql has count laws d records s
      | inr (inr (_, _, g)) ↦ ap count g
    ]

    saved :
        (save_jet_drop_data sql d records n s).0 ≡ none
        → (save_jet_drop_data sql d records n s).1 ≡ saved_anew sql d records s
    saved e = elim (save_jet_drop_data-Saved sql d records n s) [
      | inl g ↦ absurd (true-false (sym h ∙ created_once sql has count laws d records n s g))
      | inr (inl g) ↦ ap (λ o. o.1) g ∙ update_jd_done sql d records s (sym (ap (λ o. o.0) g) ∙ e)
      | inr (inr (x, f, _)) ↦ absurd (ground arith)
    ]

one_row_done :
    (sql : Statements) (n : ℤ) (update : sql.State → (Option DbError × ℕ) × sql.State)
    (s : sql.State)
    → (one_row sql n update s).0 ≡ none
    → (update s).0 ≡ (none, 1)
one_row_done sql n update s f = elim (Option-cases (update s).0.0) [
  | inr (e, g) ↦ absurd (ground arith)
  | inl g ↦ elim (Bool-cases ((update s).0.1 == 1)) [
    | inl b ↦ ap₂ (λ u v. (u, v)) g (==_true (update s).0.1 1 b)
    | inr b ↦ absurd (ground arith)
  ]
]

-- Completing a pulse gives no error just when exactly one row has changed; otherwise the database is
-- as it was.
pub complete_pulse_lem :
    (sql : Statements) (n : ℤ) (s : sql.State)
    → (((complete_pulse sql n s).0 ≡ none) × ((sql.set_complete n s).0 ≡ (none, 1)))
      ⊎ ((e : WriteError) × ((complete_pulse sql n s).0 ≡ some e)
          × ((complete_pulse sql n s).1 ≡ s))
unfolding complete_pulse
complete_pulse_lem sql n s = elim (Option-cases (complete_pulse sql n s).0) [
  | inr (e, f) ↦ inr (e, f, transaction_failed sql _ s e f)
  | inl f ↦
      let (done, _) = transaction_done sql (one_row sql n (sql.set_complete n)) s f in
      inl (f, one_row_done sql n (sql.set_complete n) s done)
]
