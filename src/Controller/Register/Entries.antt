-- ===== src/Controller/Register/Entries.antt =====
-- The entries of the register: what `SetJetDropData` adds and what a deletion leaves.
use block_explorer.Prelude.{
  ◌≡◌, refl, ap, ◌∙◌, inl, inr, some, List, [], ◌∷◌, Text, In, In-append_left, In-append_right,
  lookup, delete, lookup-insert, lookup-delete, ◌==◌, ==_true, ==_refl, ==_false, Bool-cases,
  if◌then◌else◌,
}
use block_explorer.Models.{PulseData, pulse_data_eq}
use block_explorer.Controller.Completeness.{contains}
use block_explorer.Controller.Completeness.Prefixes.{contains-In}
use block_explorer.Controller.Register.{Register, add_jet, or_empty, register_jet, register_all}

-- The register holds the jet id for the pulse.
abbrev pub Has : PulseData → Text → Register → Type 0
Has q j r = (d : List Text) × (lookup q r ≡ some d) × In j d

pub add_jet-In : (j : Text) (d : List Text) → In j (add_jet j d)
unfolding add_jet
add_jet-In j d = elim (Bool-cases (contains j d)) [
  | inl e ↦ rw e (contains-In j d e)
  | inr e ↦ rw e (In-append_right j d (j ∷ []) (inl refl))
]

pub add_jet-keeps : (i j : Text) (d : List Text) → In i d → In i (add_jet j d)
unfolding add_jet
add_jet-keeps i j d m = elim (Bool-cases (contains j d)) [
  | inl e ↦ rw e m
  | inr e ↦ rw e (In-append_left i d (j ∷ []) m)
]

pub lookup-register_jet :
    (p q : PulseData) (j : Text) (r : Register)
    → lookup q (register_jet p j r)
      ≡ (if p == q then some (add_jet j (or_empty (lookup p r))) else lookup q r)
unfolding register_jet
lookup-register_jet p q j r = lookup-insert p q _ r

-- A reported jet drop is in the register.
pub Has-register_jet : (p : PulseData) (j : Text) (r : Register) → Has p j (register_jet p j r)
Has-register_jet p j r =
    let found = lookup-register_jet p p j r in
    (
      add_jet j (or_empty (lookup p r)),
      rw (==_refl p) at found,
      add_jet-In j (or_empty (lookup p r)),
    )

-- And nothing that was there is lost by it.
pub register_jet-Has :
    (p q : PulseData) (i j : Text) (r : Register) → Has q i r → Has q i (register_jet p j r)
register_jet-Has p q i j r (d, e, m) =
    let found = lookup-register_jet p q j r in
    elim (Bool-cases (p == q)) [
      | inl same ↦
          let same' = ==_true p q same in
          let d' : lookup p r ≡ some d = ap (λ k. lookup k r) same' ∙ e in
          (
            add_jet j d,
            found ∙ rw same (ap (λ o. some (add_jet j (or_empty o))) d'),
            add_jet-keeps i j d m,
          )
      | inr other ↦ (d, found ∙ rw other e, m)
    ]

pub register_all-Has :
    (jets : List (PulseData × Text)) (q : PulseData) (i : Text) (r : Register)
    → Has q i r
    → Has q i (register_all jets r)
unfolding register_all
register_all-Has [] q i r h = h
register_all-Has ((p, j) ∷ jets) q i r h =
    register_all-Has jets q i (register_jet p j r) (register_jet-Has p q i j r h)

pub delete-Has :
    (p q : PulseData) (i : Text) (r : Register) → ¬ (p ≡ q) → Has q i r → Has q i (delete p r)
delete-Has p q i r n (d, e, m) = (d, lookup-delete p q r ∙ rw (==_false p q n) e, m)
