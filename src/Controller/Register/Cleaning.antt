-- ===== src/Controller/Register/Cleaning.antt =====
-- What `cleanJetDropRegister` leaves in the register.
use block_explorer.Prelude.{
  ◌≡◌, ◌≢◌, refl, ap, ◌∙◌, ◌⊎◌, inl, inr, true, false, none, [], ◌∷◌, arith, ℤ, ltb_ℤ, lookup,
  delete, lookup-delete, ◌==◌, ==_true, Bool-cases, Option-cases, if◌then◌else◌,
}
use block_explorer.Models.{PulseData, pulse_data_eq}
use block_explorer.Controller.Register.{Register, Controller, clean_loop, clean_jet_drop_register}

module _ (sequential : ℤ) (q : PulseData) where
  round : PulseData → Register → Register
  round p r = if ltb_ℤ p.pulse_no sequential then delete p r else r

  lookup-round :
      (p : PulseData) (r : Register)
      → lookup q (round p r) ≡ (
          if ltb_ℤ p.pulse_no sequential then (if p == q then none else lookup q r) else lookup q r)
  unfolding round
  lookup-round p r = ground (arith, lookup-delete p q r)

  later_stays :
      (copy r : Register)
      → ltb_ℤ q.pulse_no sequential ≡ false
      → lookup q (clean_loop sequential copy r) ≡ lookup q r
  unfolding clean_loop round
  later_stays [] r h = refl
  later_stays ((p, d) ∷ copy) r h =
      later_stays copy (round p r) h ∙ lookup-round p r ∙ keep (Bool-cases (p == q))
    where
      keep :
          ((p == q) ≡ true) ⊎ ((p == q) ≡ false)
          → (if ltb_ℤ p.pulse_no sequential
              then (if p == q then none else lookup q r)
              else lookup q r)
            ≡ lookup q r
      keep (inl e) = rw (ap (λ k. ltb_ℤ k.pulse_no sequential) (==_true p q e) ∙ h) refl
      keep (inr e) = rw e (ground arith)

  gone_stays :
      (copy r : Register) → lookup q r ≡ none → lookup q (clean_loop sequential copy r) ≡ none
  unfolding clean_loop round
  gone_stays [] r h = h
  gone_stays ((p, d) ∷ copy) r h =
      gone_stays copy (round p r) (lookup-round p r ∙ rw h (ground arith))

  earlier_goes :
      (copy r : Register)
      → ltb_ℤ q.pulse_no sequential ≡ true
      → lookup q copy ≢ none
      → lookup q (clean_loop sequential copy r) ≡ none
  unfolding clean_loop round
  earlier_goes [] r h n = absurd (n refl)
  earlier_goes ((p, d) ∷ copy) r h n = elim (Bool-cases (p == q)) [
    | inl e ↦
        let early : ltb_ℤ p.pulse_no sequential ≡ true =
          ap (λ k. ltb_ℤ k.pulse_no sequential) (==_true p q e) ∙ h in
        gone_stays copy (round p r) (lookup-round p r ∙ rw early (rw e refl))
    | inr e ↦ earlier_goes copy (round p r) h (λ z. n (rw e z))
  ]

-- The pulses before the sequential one leave the register, and no other.
pub lookup-clean_jet_drop_register :
    (c : Controller) (q : PulseData)
    → lookup q (clean_jet_drop_register c).jet_drop_register ≡ (
        if ltb_ℤ q.pulse_no c.sequential_pulse.pulse_number
        then none
        else lookup q c.jet_drop_register)
unfolding clean_jet_drop_register
lookup-clean_jet_drop_register c q =
    let r = c.jet_drop_register in
    let n = c.sequential_pulse.pulse_number in
    elim (Bool-cases (ltb_ℤ q.pulse_no n)) [
      | inr e ↦ rw e (later_stays n q r r e)
      | inl e ↦ rw e (elim (Option-cases (lookup q r)) [
        | inl f ↦ gone_stays n q r r f
        | inr (d, f) ↦ earlier_goes n q r r e (λ z. ground arith)
      ])
    ]
