-- ===== src/Controller/Register/Erasing.antt =====
-- One round of `eraseJetDropRegister`, with any jet drops reported in between.
use block_explorer.Prelude.{
  ℕ, suc, ◌≡◌, ◌≢◌, refl, sym, ap, ◌∙◌, ◌⊎◌, inl, inr, true, false, Option, none, some, List, [],
  ◌∷◌, arith, Text, In, ℤ, ==_false, ◌==◌, nat_eq, int_eq, Bool-cases, Option-cases, subst,
}
use block_explorer.Models.{PulseData, pulse_data_eq}
use block_explorer.Interfaces.{Storage, DbError}
use block_explorer.Controller.Completeness.{pulse_is_complete}
use block_explorer.Controller.Register.{
  Register, W, reload_data, completed, erase_entry, arrive, erase_loop, count_round,
  erase_jet_drop_register,
}
use block_explorer.Controller.Register.Entries.{Has, register_all-Has, delete-Has}

pub some-inj : {A : Type 0} {a b : A} → some a ≡ some b → a ≡ b
some-inj e = cc

module _ (storage : Storage) (min_time_pulse : ℕ) where
  abbrev pub R : W storage min_time_pulse → Register
  R w = w.controller.jet_drop_register

  pub reload_data-register :
      (now : ℕ) (f t : ℤ) (w : W storage min_time_pulse)
      → R (reload_data storage min_time_pulse now f t w) ≡ R w
  unfolding reload_data
  reload_data-register now f t w = ground arith

  pub reload_data-db :
      (now : ℕ) (f t : ℤ) (w : W storage min_time_pulse)
      → (reload_data storage min_time_pulse now f t w).db ≡ w.db
  unfolding reload_data
  reload_data-db now f t w = ground arith

  pub reload_data-sequential :
      (now : ℕ) (f t : ℤ) (w : W storage min_time_pulse)
      → (reload_data storage min_time_pulse now f t w).controller.sequential_pulse
        ≡ w.controller.sequential_pulse
  unfolding reload_data
  reload_data-sequential now f t w = ground arith

  completed-Has :
      (p q : PulseData) (i : Text) (answer : Option DbError × storage.State)
      (w : W storage min_time_pulse)
      → ¬ (p ≡ q)
      → Has q i (R w)
      → Has q i (R (completed storage min_time_pulse p answer w))
  unfolding completed
  completed-Has p q i (none, db) w n h = delete-Has p q i (R w) n h
  completed-Has p q i (some e, db) w n h = h

  -- How a round for one entry ends.
  abbrev pub Ends :
      ℕ → PulseData → List Text → W storage min_time_pulse → W storage min_time_pulse → Type 0
  Ends now p d w w' =
      ((pulse_is_complete d ≡ some true)
        × (w' ≡ completed storage min_time_pulse p (storage.complete_pulse p.pulse_no w.db) w))
      ⊎ ((pulse_is_complete d ≡ some false)
          × ((w' ≡ w)
              ⊎ (w' ≡ reload_data storage min_time_pulse now p.prev_pulse_number p.pulse_no w)))

  pub erase_entry-Ends :
      (now : ℕ) (p : PulseData) (d : List Text) (w w' : W storage min_time_pulse)
      → erase_entry storage min_time_pulse now (p, d) w ≡ some w'
      → Ends now p d w w'
  unfolding erase_entry
  erase_entry-Ends now p d w w' e = elim (Option-cases (pulse_is_complete d)) [
    | inl f ↦ absurd (ground arith)
    | inr (true, f) ↦ inl (f, some-inj (sym e ∙ rw (f, erase_entry) refl))
    | inr (false, f) ↦ elim (Bool-cases (w.controller.platform_version == 1)) [
      | inl v ↦ inr (f, inl (some-inj (sym e ∙ rw (f, erase_entry) (rw v refl))))
      | inr v ↦ inr (f, inr (some-inj (sym e ∙ rw (f, erase_entry) (rw v refl))))
    ]
  ]

  erase_entry-Has :
      (now : ℕ) (p q : PulseData) (d : List Text) (i : Text) (w w' : W storage min_time_pulse)
      → (p ≡ q → pulse_is_complete d ≢ some true)
      → Has q i (R w)
      → erase_entry storage min_time_pulse now (p, d) w ≡ some w'
      → Has q i (R w')
  erase_entry-Has now p q d i w w' n h e = elim (erase_entry-Ends now p d w w' e) [
    | inl (f, z) ↦ rw z (completed-Has p q i _ w (λ same. n same f) h)
    | inr (f, inl z) ↦ rw z h
    | inr (f, inr z) ↦ rw z (rw reload_data-register h)
  ]

  pub erase_loop_step :
      (arrivals : ℕ → List (PulseData × Text)) (clock : ℕ → ℕ) (i : ℕ)
      (entry : PulseData × List Text) (copy : Register) (w out : W storage min_time_pulse)
      → erase_loop storage min_time_pulse arrivals clock i (entry ∷ copy) w ≡ some out
      → (mid : W storage min_time_pulse) × (erase_entry storage min_time_pulse
            (clock i)
            entry
            (arrive storage min_time_pulse (arrivals i) w)
          ≡ some mid)
        × (erase_loop storage min_time_pulse arrivals clock (suc i) copy mid ≡ some out)
  unfolding erase_loop
  erase_loop_step arrivals clock i entry copy w out e =
      elim (Option-cases (
        erase_entry storage min_time_pulse (clock i) entry
          (arrive storage min_time_pulse (arrivals i) w))) [
            | inl f ↦ absurd (ground arith)
            | inr (mid, f) ↦ (mid, f, sym (rw (f, erase_loop) refl) ∙ e)
          ]

  erase_loop-Has :
      (arrivals : ℕ → List (PulseData × Text)) (clock : ℕ → ℕ) (i : ℕ) (copy : Register)
      (q : PulseData) (j : Text) (w out : W storage min_time_pulse)
      → ((d : List Text) → In (q, d) copy → pulse_is_complete d ≢ some true)
      → Has q j (R w)
      → erase_loop storage min_time_pulse arrivals clock i copy w ≡ some out
      → Has q j (R out)
  unfolding erase_loop
  erase_loop-Has arrivals clock i [] q j w out n h e = subst (λ x. Has q j (R x)) (some-inj e) h
  erase_loop-Has arrivals clock i ((p, d) ∷ copy) q j w out n h e =
      let (mid, f, g) = erase_loop_step arrivals clock i (p, d) copy w out e in
      let arrived = register_all-Has (arrivals i) q j (R w) h in
      let kept =
        erase_entry-Has (clock i) p q d j (arrive storage min_time_pulse (arrivals i) w) mid
          (λ same. n d (inl (ap (λ k. (k, d)) (sym same)))) arrived f in
      erase_loop-Has arrivals clock (suc i) copy q j mid out (λ c m. n c (inr m)) kept g

  abbrev V : W storage min_time_pulse → ℕ
  V w = w.controller.platform_version

  reload_data-version :
      (now : ℕ) (f t : ℤ) (w : W storage min_time_pulse)
      → V (reload_data storage min_time_pulse now f t w) ≡ V w
  unfolding reload_data
  reload_data-version now f t w = ground arith

  completed-version :
      (p : PulseData) (answer : Option DbError × storage.State) (w : W storage min_time_pulse)
      → V (completed storage min_time_pulse p answer w) ≡ V w
  unfolding completed
  completed-version p (none, db) w = refl
  completed-version p (some e, db) w = refl

  erase_entry-version :
      (now : ℕ) (p : PulseData) (d : List Text) (w out : W storage min_time_pulse)
      → erase_entry storage min_time_pulse now (p, d) w ≡ some out
      → V out ≡ V w
  erase_entry-version now p d w out e = elim (erase_entry-Ends now p d w out e) [
    | inl (f, z) ↦ ap V z ∙ completed-version p (storage.complete_pulse p.pulse_no w.db) w
    | inr (f, inl z) ↦ ap V z
    | inr (f, inr z) ↦ ap V z ∙ reload_data-version now p.prev_pulse_number p.pulse_no w
  ]

  pub erase_loop-version :
      (arrivals : ℕ → List (PulseData × Text)) (clock : ℕ → ℕ) (i : ℕ) (copy : Register)
      (w out : W storage min_time_pulse)
      → erase_loop storage min_time_pulse arrivals clock i copy w ≡ some out
      → V out ≡ V w
  unfolding erase_loop
  erase_loop-version arrivals clock i [] w out e = ap V (sym (some-inj e))
  erase_loop-version arrivals clock i ((p, d) ∷ copy) w out e =
      let (mid, f, g) = erase_loop_step arrivals clock i (p, d) copy w out e in
      erase_loop-version arrivals clock (suc i) copy mid out g
      ∙ erase_entry-version (clock i) p d (arrive storage min_time_pulse (arrivals i) w) mid f

  count_round-other :
      (w : W storage min_time_pulse) → V w ≢ 1 → count_round storage min_time_pulse w ≡ w
  unfolding count_round
  count_round-other w v = rw (==_false (V w) 1 v) refl

  -- The whole round is the loop, and the count of the first version of the platform.
  pub erase_jet_drop_register_step :
      (arrivals : ℕ → List (PulseData × Text)) (clock : ℕ → ℕ) (w out : W storage min_time_pulse)
      → erase_jet_drop_register storage min_time_pulse arrivals clock w ≡ some out
      → (mid : W storage min_time_pulse) × (erase_loop storage min_time_pulse arrivals clock 0
            (R w)
            w
          ≡ some mid)
        × (out ≡ count_round storage min_time_pulse mid)
  unfolding erase_jet_drop_register
  erase_jet_drop_register_step arrivals clock w out e =
      elim (Option-cases (erase_loop storage min_time_pulse arrivals clock 0 (R w) w)) [
        | inl f ↦ absurd (ground arith)
        | inr (mid, f) ↦ (mid, f, some-inj (sym e ∙ rw (f, erase_jet_drop_register) refl))
      ]

-- For a platform after the first version, a round without a panic never loses a jet drop of a pulse
-- that was not complete when it began, whatever jet drops are reported meanwhile.
pub erase_keeps_incomplete :
    (storage : Storage) (min_time_pulse : ℕ) (arrivals : ℕ → List (PulseData × Text))
    (clock : ℕ → ℕ) (w out : W storage min_time_pulse) (q : PulseData) (j : Text)
    → w.controller.platform_version ≢ 1
    → ((d : List Text) → In (q, d) w.controller.jet_drop_register → pulse_is_complete d ≢ some true)
    → Has q j w.controller.jet_drop_register
    → erase_jet_drop_register storage min_time_pulse arrivals clock w ≡ some out
    → Has q j out.controller.jet_drop_register
erase_keeps_incomplete storage min_time_pulse arrivals clock w out q j v n h e =
    let (mid, f, g) = erase_jet_drop_register_step storage min_time_pulse arrivals clock w out e in
    let version = erase_loop-version storage min_time_pulse arrivals clock 0 _ w mid f in
    let same : out ≡ mid =
      g ∙ count_round-other storage min_time_pulse mid (λ x. v (sym version ∙ x)) in
    subst (λ x. Has q j x.controller.jet_drop_register) (sym same)
      (erase_loop-Has storage min_time_pulse arrivals clock 0 _ q j w mid n h f)
