-- ===== src/Storage/Writes/Keeping.antt =====
-- What chains of statements and transactions leave in the table of jet drops.
use block_explorer.Prelude.{
  ℕ, ◌≡◌, inl, inr, Option, none, some, List, [], ◌∷◌, arith, Text, ℤ, nat_eq, Option-cases,
}
use block_explorer.Models.{Record, JetDrop, Pulse}
use block_explorer.Interfaces.{DbError}
use block_explorer.Storage.Writes.{
  WriteError, saving_record, Statements, Write, and_then, statement, transaction, save_records,
}

-- What the statements do to the table of jet drops: the two that write a jet drop leave it there if
-- they give no error, and none removes one.
pub record RowLaws (sql : Statements) (IsSaved : ℤ → Text → sql.State → Type 0) : Type 0 where
  pub created :
      (d : JetDrop) (s : sql.State)
      → (sql.create_jet_drop d s).0 ≡ none
      → IsSaved d.pulse_number d.jet_id (sql.create_jet_drop d s).1
  pub updated :
      (d : JetDrop) (s : sql.State)
      → (sql.save_jet_drop d s).0 ≡ none
      → IsSaved d.pulse_number d.jet_id (sql.save_jet_drop d s).1
  pub create_jet_drop_keeps :
      (d : JetDrop) (s : sql.State) (m : ℤ) (j : Text)
      → IsSaved m j s
      → IsSaved m j (sql.create_jet_drop d s).1
  pub save_jet_drop_keeps :
      (d : JetDrop) (s : sql.State) (m : ℤ) (j : Text)
      → IsSaved m j s
      → IsSaved m j (sql.save_jet_drop d s).1
  pub save_record_keeps :
      (r : Record) (s : sql.State) (m : ℤ) (j : Text)
      → IsSaved m j s
      → IsSaved m j (sql.save_record r s).1
  pub add_amounts_keeps :
      (n : ℤ) (k : ℕ) (s : sql.State) (m : ℤ) (j : Text)
      → IsSaved m j s
      → IsSaved m j (sql.add_amounts n k s).1
  pub upsert_pulse_keeps :
      (p : Pulse) (s : sql.State) (m : ℤ) (j : Text)
      → IsSaved m j s
      → IsSaved m j (sql.upsert_pulse p s).1
  pub set_complete_keeps :
      (n : ℤ) (s : sql.State) (m : ℤ) (j : Text)
      → IsSaved m j s
      → IsSaved m j (sql.set_complete n s).1
  pub set_sequential_keeps :
      (n : ℤ) (s : sql.State) (m : ℤ) (j : Text)
      → IsSaved m j s
      → IsSaved m j (sql.set_sequential n s).1
  pub commit_keeps :
      (s : sql.State) (m : ℤ) (j : Text) → IsSaved m j s → IsSaved m j (sql.commit s).1

module _ (sql : Statements) (IsSaved : ℤ → Text → sql.State → Type 0)
    (laws : RowLaws sql IsSaved) where
  abbrev pub Keeps : Write sql → Type 0
  Keeps w = (s : sql.State) (m : ℤ) (j : Text) → IsSaved m j s → IsSaved m j (w s).1

  abbrev pub Makes : ℤ → Text → Write sql → Type 0
  Makes m j w = (s : sql.State) → (w s).0 ≡ none → IsSaved m j (w s).1

  pub and_then-Keeps : (a b : Write sql) → Keeps a → Keeps b → Keeps (and_then sql a b)
  unfolding and_then
  and_then-Keeps a b ka kb s m j h = elim (Option-cases (a s).0) [
    | inl e ↦ rw (e, and_then) (kb (a s).1 m j (ka s m j h))
    | inr (x, e) ↦ rw (e, and_then) (ka s m j h)
  ]

  pub transaction-Keeps : (body : Write sql) → Keeps body → Keeps (transaction sql body)
  unfolding transaction
  transaction-Keeps body k s m j h = elim (Option-cases (body s).0) [
    | inr (x, e) ↦ rw (e, transaction) h
    | inl e ↦ elim (Option-cases (sql.commit (body s).1).0) [
      | inr (x, f) ↦ rw (e, f, transaction) h
      | inl f ↦ rw (e, f, transaction) (laws.commit_keeps (body s).1 m j (k s m j h))
    ]
  ]

  pub save_records-Keeps : (records : List Record) → Keeps (save_records sql records)
  unfolding save_records
  save_records-Keeps [] s m j h = h
  save_records-Keeps (r ∷ records) s m j h =
      and_then-Keeps (statement sql saving_record (sql.save_record r)) (save_records sql records)
        (laws.save_record_keeps r) (save_records-Keeps records) s m j h

  pub and_then-Makes :
      (n : ℤ) (i : Text) (a b : Write sql) → Makes n i a → Keeps b → Makes n i (and_then sql a b)
  unfolding and_then
  and_then-Makes n i a b made kb s e = elim (Option-cases (a s).0) [
    | inl f ↦ rw (f, and_then) (kb (a s).1 n i (made s f))
    | inr (x, f) ↦ absurd (let wrong : some x ≡ none = rw (f, and_then) at e in ground arith)
  ]

  pub transaction-Makes :
      (n : ℤ) (i : Text) (body : Write sql) → Makes n i body → Makes n i (transaction sql body)
  unfolding transaction
  transaction-Makes n i body made s e = elim (Option-cases (body s).0) [
    | inr (x, f) ↦ absurd (let wrong : some x ≡ none = rw (f, transaction) at e in ground arith)
    | inl f ↦ elim (Option-cases (sql.commit (body s).1).0) [
      | inr (x, g) ↦ let wrong = rw (f, g, transaction) at e in absurd (ground arith)
      | inl g ↦ rw (f, g, transaction) (laws.commit_keeps (body s).1 n i (made s f))
    ]
  ]

  pub statement-Makes :
      (n : ℤ) (i : Text) (message : DbError → WriteError)
      (act : sql.State → Option DbError × sql.State)
      → ((s : sql.State) → (act s).0 ≡ none → IsSaved n i (act s).1)
      → Makes n i (statement sql message act)
  statement-Makes n i message act made s e = elim (Option-cases (act s).0) [
    | inl f ↦ made s f
    | inr (x, f) ↦ absurd (let wrong : some (message x) ≡ none = rw f at e in ground arith)
  ]
