-- ===== src/Controller/Sequence/Start.antt =====
-- What the controller knows after a start: the jet drops of the incomplete pulses that the
-- database holds, under keys that lack the pulse's epoch and time.
use block_explorer.Prelude.{
  ℕ, ◌≡◌, ◌≢◌, refl, sym, ap, ◌∙◌, inl, inr, none, some, List, [], ◌∷◌, Text, pos, In, All, lookup,
  insert, lookup-insert, ==_false, Option-cases, subst,
}
use block_explorer.Models.{Pulse, PulseData, JetDrop, pulse_data_eq}
use block_explorer.Interfaces.{Storage, DbError}
use block_explorer.Controller.Register.{Register, register_jet, register_all, restart_key}
use block_explorer.Controller.Register.Entries.{
  Has, Has-register_jet, register_jet-Has, lookup-register_jet,
}
use block_explorer.Controller.Sequence.{S, register_drops, register_pulses, set_incomplete_pulses}

none-some : {x : DbError} → some x ≡ none → ⊥
none-some e = cc

register_jet-apart :
    (p q : PulseData) (j : Text) (r : Register)
    → ¬ (p ≡ q)
    → lookup q (register_jet p j r) ≡ lookup q r
register_jet-apart p q j r n = lookup-register_jet p q j r ∙ rw (==_false p q n)

-- The processor reports jet drops under the whole pulse data. If that has a time, as the
-- platform's pulses have, no report ever reaches the entry that a start has made for the pulse.
pub restart_entry_frozen :
    (jets : List (PulseData × Text)) (p : Pulse) (r : Register)
    → All (λ (jet : PulseData × Text). jet.0.pulse_timestamp ≢ pos 0) jets
    → lookup (restart_key p) (register_all jets r) ≡ lookup (restart_key p) r
unfolding register_all restart_key
restart_entry_frozen [] p r h = refl
restart_entry_frozen ((q, j) ∷ jets) p r h =
    restart_entry_frozen jets p (register_jet q j r) h.1
    ∙ register_jet-apart q (restart_key p) j r (λ e. h.0 (ap (λ k. k.pulse_timestamp) e))

module _ (storage : Storage) (min_time_pulse : ℕ) where
  register_drops-Has :
      (key q : PulseData) (j : Text) (drops : List JetDrop) (r : Register)
      → Has q j r
      → Has q j (register_drops storage min_time_pulse key drops r)
  unfolding register_drops
  register_drops-Has key q j [] r h = h
  register_drops-Has key q j (jd ∷ drops) r h =
      register_drops-Has key q j drops _ (register_jet-Has key q j jd.jet_id r h)

  register_drops-In :
      (key : PulseData) (jd : JetDrop) (drops : List JetDrop) (r : Register)
      → In jd drops
      → Has key jd.jet_id (register_drops storage min_time_pulse key drops r)
  unfolding register_drops
  register_drops-In key jd [] r m = absurd m
  register_drops-In key jd (x ∷ drops) r (inl e) = register_drops-Has key key jd.jet_id drops _ (
      subst (λ j. Has key j (register_jet key x.jet_id r)) (ap (λ d. d.jet_id) (sym e))
        (Has-register_jet key x.jet_id r))
  register_drops-In key jd (x ∷ drops) r (inr m) =
      register_drops-In key jd drops (register_jet key x.jet_id r) m

  -- A later pulse with the same key would empty the entry: the rows have different numbers.
  abbrev Differ : Pulse → Pulse → Type 0
  Differ p q = p.pulse_number ≢ q.pulse_number

  insert-apart :
      (p q : PulseData) (j : Text) (r : Register) → ¬ (p ≡ q) → Has q j r → Has q j (insert p [] r)
  insert-apart p q j r n (d, e, m) = (d, lookup-insert p q [] r ∙ rw (==_false p q n) e, m)

  keys-apart : (p q : Pulse) → Differ p q → ¬ (restart_key q ≡ restart_key p)
  unfolding restart_key
  keys-apart p q n e = n (ap (λ k. k.pulse_no) (sym e))

  register_pulses-Has :
      (db : storage.State) (pulses : List Pulse) (p : Pulse) (j : Text) (r : Register)
      → All (Differ p) pulses
      → (register_pulses storage min_time_pulse db pulses r).1 ≡ none
      → Has (restart_key p) j r
      → Has (restart_key p) j (register_pulses storage min_time_pulse db pulses r).0
  unfolding register_pulses
  register_pulses-Has db [] p j r n e h = h
  register_pulses-Has db (q ∷ pulses) p j r n e h =
      elim (Option-cases (storage.get_jet_drops q db).1) [
        | inl f ↦
            rw (f, register_pulses)
              (register_pulses-Has db pulses p j _ n.1 (sym (rw (f, register_pulses) refl) ∙ e) (
                register_drops-Has (restart_key q) (restart_key p) j (storage.get_jet_drops q db).0
                  _ (insert-apart (restart_key q) (restart_key p) j r (keys-apart p q n.0) h)))
        | inr (x, f) ↦ absurd (
            none-some {x = x} (
              sym (
                let g : (register_pulses storage min_time_pulse db (q ∷ pulses) r).1 ≡ some x =
                  rw (f, register_pulses) refl in
                g)
              ∙ e))
      ]

  -- The rows of pulses are keyed by their numbers.
  abbrev pub Distinct : List Pulse → Type 0
  Distinct [] = Unit
  Distinct (p ∷ pulses) = All (Differ p) pulses × Distinct pulses

  register_pulses-In :
      (db : storage.State) (pulses : List Pulse) (p : Pulse) (jd : JetDrop) (r : Register)
      → Distinct pulses
      → (register_pulses storage min_time_pulse db pulses r).1 ≡ none
      → In p pulses
      → In jd (storage.get_jet_drops p db).0
      → Has (restart_key p) jd.jet_id (register_pulses storage min_time_pulse db pulses r).0
  unfolding register_pulses
  register_pulses-In db [] p jd r d e m h = absurd m
  register_pulses-In db (q ∷ pulses) p jd r d e m h =
      elim (Option-cases (storage.get_jet_drops q db).1) [
        | inl f ↦
            let e' = sym (rw (f, register_pulses) refl) ∙ e in
            elim m [
              | inl same ↦
                  let h' = subst (λ x. In jd (storage.get_jet_drops x db).0) same h in
                  rw (f, register_pulses)
                    (subst
                      (λ x.
                        Has (restart_key x) jd.jet_id
                          (register_pulses storage min_time_pulse db pulses (
                            register_drops storage min_time_pulse (restart_key q)
                              (storage.get_jet_drops q db).0 (insert (restart_key q) [] r))).0)
                      (sym same)
                      (register_pulses-Has db pulses q jd.jet_id _ d.0 e'
                        (register_drops-In (restart_key q) jd (storage.get_jet_drops q db).0 _ h')))
              | inr later ↦
                  rw (f, register_pulses) (register_pulses-In db pulses p jd _ d.1 e' later h)
            ]
        | inr (x, f) ↦ absurd (
            none-some {x = x} (
              sym (
                let g : (register_pulses storage min_time_pulse db (q ∷ pulses) r).1 ≡ some x =
                  rw (f, register_pulses) refl in
                g)
              ∙ e))
      ]

-- After a start without an error, when the incomplete pulses have different numbers, the register
-- holds every jet drop that the database has for an incomplete pulse, under the key that the
-- restart makes for the pulse.
pub restart_registers :
    (storage : Storage) (min_time_pulse : ℕ) (w : S storage min_time_pulse) (p : Pulse)
    (jd : JetDrop)
    → Distinct storage min_time_pulse (storage.get_incomplete_pulses w.db).0
    → (set_incomplete_pulses storage min_time_pulse w).1 ≡ none
    → In p (storage.get_incomplete_pulses w.db).0
    → In jd (storage.get_jet_drops p w.db).0
    → Has
        (restart_key p)
        jd.jet_id
        (set_incomplete_pulses storage min_time_pulse w).0.controller.jet_drop_register
unfolding set_incomplete_pulses
restart_registers storage min_time_pulse w p jd d e m h =
    elim (Option-cases (storage.get_incomplete_pulses w.db).1) [
      | inl f ↦
          rw (f, set_incomplete_pulses)
            (register_pulses-In storage min_time_pulse w.db (storage.get_incomplete_pulses w.db).0 p
              jd w.controller.jet_drop_register d (sym (rw (f, set_incomplete_pulses) refl) ∙ e) m
              h)
      | inr (x, f) ↦ absurd (
          none-some {x = x} (
            sym (
              let g : (set_incomplete_pulses storage min_time_pulse w).1 ≡ some x =
                rw (f, set_incomplete_pulses) refl in
              g)
            ∙ e))
    ]
