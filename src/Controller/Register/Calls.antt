-- ===== src/Controller/Register/Calls.antt =====
-- What a round of `eraseJetDropRegister` asks of the storage and of the extractor.
use mathlib.Core.List.{append-nil, append_assoc}
use block_explorer.Prelude.{
  ℕ, suc, ◌-◌, ◌≡◌, refl, sym, ap, ◌∙◌, ◌⊎◌, inl, inr, true, false, Option, none, some, List, [],
  ◌∷◌, ◌++◌, arith, Text, In, All, All-append, All-In, ℤ, pos, ◌==◌, ==_true, nat_eq, int_eq,
  Bool-cases, subst,
}
use block_explorer.Models.{PulseData}
use block_explorer.Interfaces.{Storage, DbError}
use block_explorer.Controller.Completeness.{pulse_is_complete}
use block_explorer.Controller.Completeness.Covering.{Covers, IsBits, pulse_is_complete_sound}
use block_explorer.Controller.MissedData.{add}
use block_explorer.Controller.Register.{
  Register, Call, completes, sequences, loads, W, reload_data, completed, erase_entry, arrive,
  erase_loop, start_of, count_round, erase_jet_drop_register,
}
use block_explorer.Controller.Register.Erasing.{
  erase_entry-Ends, erase_jet_drop_register_step, erase_loop_step, some-inj,
}

-- Why a call is made: a pulse of the register whose jet ids pass is completed, and of one whose
-- jet ids do not pass the range that ends with it is loaded.
abbrev pub Justified : ℕ → Register → Call → Type 0
Justified min_time_pulse r (completes n) =
    (p : PulseData) × (d : List Text) × In (p, d) r
    × (p.pulse_no ≡ n)
    × (pulse_is_complete d ≡ some true)
Justified min_time_pulse r (loads from_pulse to_pulse) =
    (p : PulseData) × (d : List Text) × In (p, d) r
    × (p.pulse_no ≡ to_pulse)
    × (pulse_is_complete d ≡ some false)
    × (((p.prev_pulse_number ≡ from_pulse) × (from_pulse ≡ pos 0 → ⊥))
        ⊎ ((p.prev_pulse_number ≡ pos 0) × (from_pulse ≡ pos (min_time_pulse - 1))))
Justified min_time_pulse r (sequences n) = ⊥

module _ (storage : Storage) (min_time_pulse : ℕ) where
  -- The calls of `out` are those of `w` and justified ones behind them.
  abbrev Adds : Register → W storage min_time_pulse → W storage min_time_pulse → Type 0
  Adds r w out =
      (more : List Call) × (out.calls ≡ w.calls ++ more) × All (Justified min_time_pulse r) more

  nothing : (r : Register) (w out : W storage min_time_pulse) → out.calls ≡ w.calls → Adds r w out
  nothing r w out e = ([], e ∙ sym (append-nil w.calls), tt)

  Adds-trans :
      (r : Register) (a b c : W storage min_time_pulse) → Adds r a b → Adds r b c → Adds r a c
  Adds-trans r a b c (m, e, h) (n, f, k) = (
    m ++ n,
    f ∙ ap (λ l. l ++ n) e ∙ append_assoc a.calls m n,
    All-append (Justified min_time_pulse r) m n h k,
  )

  completed-calls :
      (p : PulseData) (answer : Option DbError × storage.State) (w : W storage min_time_pulse)
      → (completed storage min_time_pulse p answer w).calls ≡ w.calls ++ completes p.pulse_no ∷ []
  unfolding completed
  completed-calls p (none, db) w = refl
  completed-calls p (some e, db) w = refl

  pub reload_data-calls :
      (now : ℕ) (f t : ℤ) (w : W storage min_time_pulse)
      → let out = reload_data storage min_time_pulse now f t w in
        (out.calls ≡ w.calls) ⊎ (out.calls ≡ w.calls ++ loads (start_of min_time_pulse f) t ∷ [])
  unfolding reload_data
  reload_data-calls now f t w =
      elim (Bool-cases (add now (start_of min_time_pulse f) t w.controller.missed_data_manager).1) [
        | inl e ↦ inr (rw e refl)
        | inr e ↦ inl (rw e refl)
      ]

  start_of-cases :
      (f : ℤ)
      → ((f ≡ start_of min_time_pulse f) × (start_of min_time_pulse f ≡ pos 0 → ⊥))
        ⊎ ((f ≡ pos 0) × (start_of min_time_pulse f ≡ pos (min_time_pulse - 1)))
  start_of-cases f = elim (Bool-cases (f == pos 0)) [
    | inl e ↦ inr (==_true f (pos 0) e, rw e)
    | inr e ↦ rw e (inl (refl, λ z. ground arith))
  ]

  reload_data-Adds :
      (r : Register) (now : ℕ) (p : PulseData) (d : List Text) (w : W storage min_time_pulse)
      → In (p, d) r
      → pulse_is_complete d ≡ some false
      → Adds r w (reload_data storage min_time_pulse now p.prev_pulse_number p.pulse_no w)
  reload_data-Adds r now p d w m f = elim (reload_data-calls now p.prev_pulse_number p.pulse_no w) [
    | inl e ↦
        nothing r w (reload_data storage min_time_pulse now p.prev_pulse_number p.pulse_no w) e
    | inr e ↦ (
      loads (start_of min_time_pulse p.prev_pulse_number) p.pulse_no ∷ [],
      e,
      ((p, d, m, refl, f, start_of-cases p.prev_pulse_number), tt),
    )
  ]

  erase_entry-Adds :
      (r : Register) (now : ℕ) (p : PulseData) (d : List Text) (w out : W storage min_time_pulse)
      → In (p, d) r
      → erase_entry storage min_time_pulse now (p, d) w ≡ some out
      → Adds r w out
  erase_entry-Adds r now p d w out m e =
      elim (erase_entry-Ends storage min_time_pulse now p d w out e) [
        | inl (f, z) ↦ (
          completes p.pulse_no ∷ [],
          ap (λ x. x.calls) z ∙ completed-calls p (storage.complete_pulse p.pulse_no w.db) w,
          ((p, d, m, refl, f), tt),
        )
        | inr (f, inl z) ↦ nothing r w out (ap (λ x. x.calls) z)
        | inr (f, inr z) ↦ subst (Adds r w) (sym z) (reload_data-Adds r now p d w m f)
      ]

  erase_loop-Adds :
      (r : Register) (arrivals : ℕ → List (PulseData × Text)) (clock : ℕ → ℕ) (i : ℕ)
      (copy : Register) (w out : W storage min_time_pulse)
      → ((entry : PulseData × List Text) → In entry copy → In entry r)
      → erase_loop storage min_time_pulse arrivals clock i copy w ≡ some out
      → Adds r w out
  unfolding erase_loop
  erase_loop-Adds r arrivals clock i [] w out sub e =
      nothing r w out (ap (λ x. x.calls) (sym (some-inj e)))
  erase_loop-Adds r arrivals clock i ((p, d) ∷ copy) w out sub e =
      let (mid, f, g) =
        erase_loop_step storage min_time_pulse arrivals clock i (p, d) copy w out e in
      Adds-trans r w mid out
        (erase_entry-Adds r (clock i) p d (arrive storage min_time_pulse (arrivals i) w) mid
          (sub (p, d) (inl refl)) f)
        (erase_loop-Adds r arrivals clock (suc i) copy mid out (λ x m. sub x (inr m)) g)

  count_round-calls :
      (w : W storage min_time_pulse) → (count_round storage min_time_pulse w).calls ≡ w.calls
  unfolding count_round
  count_round-calls w = ground arith

-- Every call that a round without a panic adds is justified by the register as the round found it:
-- a pulse is completed only if its jet ids pass, and loaded again only if they do not, from the
-- pulse before it or from the platform's first one.
pub erase-calls-Justified :
    (storage : Storage) (min_time_pulse : ℕ) (arrivals : ℕ → List (PulseData × Text))
    (clock : ℕ → ℕ) (w out : W storage min_time_pulse)
    → erase_jet_drop_register storage min_time_pulse arrivals clock w ≡ some out
    → (more : List Call) × (out.calls ≡ w.calls ++ more)
      × All (Justified min_time_pulse w.controller.jet_drop_register) more
erase-calls-Justified storage min_time_pulse arrivals clock w out e =
    let r = w.controller.jet_drop_register in
    let (mid, f, g) = erase_jet_drop_register_step storage min_time_pulse arrivals clock w out e in
    let (more, h, k) =
      erase_loop-Adds storage min_time_pulse r arrivals clock 0 r w mid (λ x m. m) f in
    (more, ap (λ x. x.calls) g ∙ count_round-calls storage min_time_pulse mid ∙ h, k)

-- In a round that begins with no calls and a register whose jet ids are bits, every pulse that is
-- completed has an entry in the register whose jet ids cover the whole tree of jets.
pub completed_pulse-Covers :
    (storage : Storage) (min_time_pulse : ℕ) (arrivals : ℕ → List (PulseData × Text))
    (clock : ℕ → ℕ) (w out : W storage min_time_pulse) (n : ℤ)
    → ((p : PulseData) (d : List Text) (s : Text)
        → In (p, d) w.controller.jet_drop_register
        → In s d
        → IsBits s)
    → w.calls ≡ []
    → erase_jet_drop_register storage min_time_pulse arrivals clock w ≡ some out
    → In (completes n) out.calls
    → (p : PulseData) × (d : List Text) × In (p, d) w.controller.jet_drop_register
      × (p.pulse_no ≡ n)
      × Covers d
completed_pulse-Covers storage min_time_pulse arrivals clock w out n bits fresh e m =
    let (more, h, k) = erase-calls-Justified storage min_time_pulse arrivals clock w out e in
    let all_new : out.calls ≡ more = h ∙ ap (λ l. l ++ more) fresh in
    let (p, d, found, same, passed) =
      All-In _ more (completes n) k (subst (In (completes n)) all_new m) in
    (p, d, found, same, pulse_is_complete_sound d (λ s i. bits p d s found i) passed)
