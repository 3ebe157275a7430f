-- ===== src/Processor/Workers/Busy.antt =====
-- Which workers have a task.
use block_explorer.Prelude.{
  ℕ, zero, suc, ◌≡◌, ◌⊎◌, inl, inr, refl, true, false, some, List, [], ◌∷◌, arith, get_elem?, set,
  subst,
}
use block_explorer.Models.{CanonicalJetDrop}
use block_explorer.Controller.Register.Erasing.{some-inj}
use block_explorer.Processor.Workers.{Worker, idle, working, resending, returned}

pub true-false : true ≡ false → ⊥
true-false e = ground arith

-- The worker has the task.
unfoldable pub Busy : CanonicalJetDrop → Worker → Type 0
Busy jd idle = ⊥
Busy jd returned = ⊥
Busy jd (working t) = jd ≡ t
Busy jd (resending t) = jd ≡ t

unfoldable pub SomeBusy : CanonicalJetDrop → List Worker → Type 0
SomeBusy jd [] = ⊥
SomeBusy jd (w ∷ ws) = Busy jd w ⊎ SomeBusy jd ws

pub SomeBusy-set :
    (jd : CanonicalJetDrop) (ws : List Worker) (i : ℕ) (u v : Worker)
    → get_elem? ws i ≡ some u
    → SomeBusy jd ws
    → SomeBusy jd (set ws i v) ⊎ Busy jd u
unfolding SomeBusy
SomeBusy-set jd [] i u v e h = absurd h
SomeBusy-set jd (w ∷ ws) zero u v e (inl h) = inr (subst (Busy jd) (some-inj e) h)
SomeBusy-set jd (w ∷ ws) zero u v e (inr h) = inl (inr h)
SomeBusy-set jd (w ∷ ws) (suc i) u v e (inl h) = inl (inl h)
SomeBusy-set jd (w ∷ ws) (suc i) u v e (inr h) = elim (SomeBusy-set jd ws i u v e h) [
  | inl k ↦ inl (inr k)
  | inr k ↦ inr k
]

pub set-SomeBusy :
    (jd : CanonicalJetDrop) (ws : List Worker) (i : ℕ) (u v : Worker)
    → get_elem? ws i ≡ some u
    → Busy jd v
    → SomeBusy jd (set ws i v)
unfolding SomeBusy
set-SomeBusy jd [] i u v e h = absurd (ground arith)
set-SomeBusy jd (w ∷ ws) zero u v e h = inl h
set-SomeBusy jd (w ∷ ws) (suc i) u v e h = inr (set-SomeBusy jd ws i u v e h)

pub get_elem?-set_idle :
    (ws : List Worker) (i j : ℕ)
    → get_elem? ws j ≡ some idle
    → get_elem? (set ws i idle) j ≡ some idle
get_elem?-set_idle [] i j e = e
get_elem?-set_idle (w ∷ ws) zero zero e = refl
get_elem?-set_idle (w ∷ ws) zero (suc j) e = e
get_elem?-set_idle (w ∷ ws) (suc i) zero e = e
get_elem?-set_idle (w ∷ ws) (suc i) (suc j) e = get_elem?-set_idle ws i j e
