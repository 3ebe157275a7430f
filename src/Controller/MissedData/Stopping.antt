-- ===== src/Controller/MissedData/Stopping.antt =====
-- etl/controller/misseddata.go: the goroutine that `Start` leaves running and `Stop`, which talk over
-- one unbuffered channel in both directions. `Start` is called once, `Stop` from any number of places.
use block_explorer.Prelude.{
  ℕ, zero, suc, ◌+◌, ◌<◌, ◌≡◌, refl, Option, none, some, List, [], ◌∷◌, arith, ℤ, Option-cases,
  subst, inl, inr,
}
use block_explorer.Controller.MissedData.{MissedDataManager, add, delete_expired}
use block_explorer.Controller.Register.Erasing.{some-inj}

-- The goroutine: before `Start`, in its `select`, at the send behind the loop, and at its end.
pub data Phase : Type 0 where
  not_started selecting answering finished : Phase

-- The calls of `Stop` at the send, at the receive, and behind it.
pub record Cleaner : Type 0 where
  pub mdm : MissedDataManager
  pub phase : Phase
  pub sending : ℕ
  pub receiving : ℕ
  pub returned : ℕ

-- `hears` is the goroutine's receive from a call, `answers` its send to one; a call can also receive
-- what another call sends.
pub data Event : Type 0 where
  starts calls hears answers mixes : Event
  ticks : (ℕ → ℕ) → Event
  adds : ℕ → ℤ → ℤ → Event

unfoldable pub told : Cleaner → ℕ → Option Cleaner
told c zero = none
told c (suc n) = some (record c { phase = answering; sending = n; receiving = c.receiving + 1 })

unfoldable pub awaited : Cleaner → ℕ → Option Cleaner
awaited c zero = none
awaited c (suc n) = some (record c { phase = finished; receiving = n; returned = c.returned + 1 })

-- The call that sends goes on to receive, and the one that receives returns.
unfoldable pub mixed : Cleaner → ℕ → ℕ → Option Cleaner
mixed c (suc n) (suc k) =
    some (record c { sending = n; receiving = k + 1; returned = c.returned + 1 })
mixed c zero k = none
mixed c (suc n) zero = none

unfoldable pub step : Event → Cleaner → Option Cleaner
step starts c = elim c.phase [ not_started ↦ some (record c { phase = selecting }) | _ ↦ none ]
step calls c = some (record c { sending = c.sending + 1 })
step hears c = elim c.phase [ selecting ↦ told c c.sending | _ ↦ none ]
step answers c = elim c.phase [ answering ↦ awaited c c.receiving | _ ↦ none ]
step mixes c = mixed c c.sending c.receiving
step (ticks clock) c = elim c.phase [
  | selecting ↦ some (record c { mdm = delete_expired clock c.mdm })
  | _ ↦ none
]
step (adds now from_pulse to_pulse) c =
    some (record c { mdm = (add now from_pulse to_pulse c.mdm).0 })

unfoldable pub run : List Event → Cleaner → Option Cleaner
run [] c = some c
run (event ∷ events) c = elim (step event c) [ none ↦ none | some c' ↦ run events c' ]

abbrev pub unstarted : MissedDataManager → Cleaner
unstarted mdm = record { mdm = mdm; phase = not_started; sending = 0; receiving = 0; returned = 0 }

-- Until the goroutine has heard a call, none receives and none has returned; while it answers, one
-- receives; and at its end none does.
abbrev Balanced : Phase → ℕ → ℕ → Type 0
Balanced not_started receiving returned = (receiving ≡ 0) × (returned ≡ 0)
Balanced selecting receiving returned = (receiving ≡ 0) × (returned ≡ 0)
Balanced answering receiving returned = receiving ≡ 1
Balanced finished receiving returned = receiving ≡ 0

abbrev IsBalanced : Cleaner → Type 0
IsBalanced c = Balanced c.phase c.receiving c.returned

abbrev at : Cleaner → Phase → Cleaner
at c phase = record c { phase = phase }

mixed-IsBalanced :
    (c out : Cleaner) (phase : Phase) (sending receiving : ℕ)
    → Balanced phase receiving c.returned
    → mixed (at c phase) sending receiving ≡ some out
    → IsBalanced out
unfolding mixed
mixed-IsBalanced c out phase zero receiving h e = absurd (ground arith)
mixed-IsBalanced c out phase (suc n) zero h e = absurd (ground arith)
mixed-IsBalanced c out not_started (suc n) (suc k) h e = absurd (ground arith)
mixed-IsBalanced c out selecting (suc n) (suc k) h e = absurd (ground arith)
mixed-IsBalanced c out answering (suc n) (suc k) h e =
    subst IsBalanced (some-inj e) (let one : k + 1 ≡ 1 = omega arith in one)
mixed-IsBalanced c out finished (suc n) (suc k) h e = absurd (ground arith)

told-IsBalanced :
    (c out : Cleaner) (sending : ℕ)
    → Balanced selecting c.receiving c.returned
    → told (at c selecting) sending ≡ some out
    → IsBalanced out
unfolding told
told-IsBalanced c out zero h e = absurd (ground arith)
told-IsBalanced c out (suc n) h e =
    let none_yet = h.0 in
    subst IsBalanced (some-inj e) (let one : c.receiving + 1 ≡ 1 = omega arith in one)

awaited-IsBalanced :
    (c out : Cleaner) (receiving : ℕ)
    → Balanced answering receiving c.returned
    → awaited (at c answering) receiving ≡ some out
    → IsBalanced out
unfolding awaited
awaited-IsBalanced c out zero h e = absurd (ground arith)
awaited-IsBalanced c out (suc n) h e =
    subst IsBalanced (some-inj e) (let last : n ≡ 0 = omega arith in last)

step-IsBalanced :
    (event : Event) (phase : Phase) (c out : Cleaner)
    → Balanced phase c.receiving c.returned
    → step event (at c phase) ≡ some out
    → IsBalanced out
unfolding step
step-IsBalanced starts not_started c out h e = subst IsBalanced (some-inj e) h
step-IsBalanced starts selecting c out h e = absurd (ground arith)
step-IsBalanced starts answering c out h e = absurd (ground arith)
step-IsBalanced starts finished c out h e = absurd (ground arith)
step-IsBalanced calls phase c out h e = subst IsBalanced (some-inj e) h
step-IsBalanced hears not_started c out h e = absurd (ground arith)
step-IsBalanced hears selecting c out h e = told-IsBalanced c out c.sending h e
step-IsBalanced hears answering c out h e = absurd (ground arith)
step-IsBalanced hears finished c out h e = absurd (ground arith)
step-IsBalanced answers not_started c out h e = absurd (ground arith)
step-IsBalanced answers selecting c out h e = absurd (ground arith)
step-IsBalanced answers answering c out h e = awaited-IsBalanced c out c.receiving h e
step-IsBalanced answers finished c out h e = absurd (ground arith)
step-IsBalanced mixes phase c out h e = mixed-IsBalanced c out phase c.sending c.receiving h e
step-IsBalanced (ticks clock) not_started c out h e = absurd (ground arith)
step-IsBalanced (ticks clock) selecting c out h e = subst IsBalanced (some-inj e) h
step-IsBalanced (ticks clock) answering c out h e = absurd (ground arith)
step-IsBalanced (ticks clock) finished c out h e = absurd (ground arith)
step-IsBalanced (adds now f t) phase c out h e = subst IsBalanced (some-inj e) h

run-IsBalanced :
    (events : List Event) (c out : Cleaner)
    → IsBalanced c
    → run events c ≡ some out
    → IsBalanced out
unfolding run
run-IsBalanced [] c out h e = subst IsBalanced (some-inj e) h
run-IsBalanced (event ∷ events) c out h e = elim (Option-cases (step event c)) [
  | inl f ↦ let wrong : none ≡ some out = rw (f, run) at e in absurd (ground arith)
  | inr (mid, f) ↦
      run-IsBalanced events mid out (step-IsBalanced event c.phase c mid h f) (rw (f, run) at e)
]

ticks_not :
    (phase : Phase) (c : Cleaner) (clock : ℕ → ℕ)
    → Balanced phase c.receiving c.returned
    → 0 < c.returned
    → step (ticks clock) (at c phase) ≡ none
unfolding step
ticks_not not_started c clock h r = refl
ticks_not selecting c clock h r = let idle = h.1 in absurd (omega arith)
ticks_not answering c clock h r = refl
ticks_not finished c clock h r = refl

-- However the calls of `Stop` and the ticks fall together: once a call has returned, the goroutine no
-- longer cleans the pool, even where the call has met another one in place of the goroutine.
pub no_tick_after_stop :
    (mdm : MissedDataManager) (events : List Event) (c : Cleaner) (clock : ℕ → ℕ)
    → run events (unstarted mdm) ≡ some c
    → 0 < c.returned
    → step (ticks clock) c ≡ none
no_tick_after_stop mdm events c clock e r =
    ticks_not c.phase c clock (run-IsBalanced events (unstarted mdm) c (refl, refl) e) r
