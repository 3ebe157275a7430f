-- ===== src/Controller/MissedData/Throttle.antt =====
-- Within the time to live a range of pulses is not asked for twice.
use mathlib.Core.Bool.{Bool-set}
use mathlib.Core.HLevel.{⊥_prop}
use mathlib.Core.List.{
  Mem, Mem-prop, mem-cons, mem-append, mem-append_left, mem-append_right, mem-cons_self,
  not-mem-nil,
}
use mathlib.Core.List.Perm
use mathlib.Core.Logic.Or
use block_explorer.Prelude.{
  ℕ, ◌+◌, ◌≤◌, ◌≡◌, refl, inl, inr, Bool, true, false, List, [], ◌∷◌, ◌++◌, ◌↔◌, arith, any, All,
  Bool-cases, ℤ, ◌≤ℤ◌, In, any-witness, any-intro,
}
use block_explorer.Controller.MissedData.{
  MissedData, MissedDataManager, within, add, is_expired, delete_expired,
}
use block_explorer.Controller.MissedData.Removal.{ExpiredAt, delete_expired-Cleans}

-- The entry's range holds the asked one.
abbrev pub Covering : ℤ → ℤ → MissedData → Type 0
Covering from_pulse to_pulse m = (m.from_pulse ≤ℤ from_pulse) × (to_pulse ≤ℤ m.to_pulse)

within_iff : (f t : ℤ) (m : MissedData) → (within f t m ≡ true) ↔ Covering f t m
within_iff f t m = ground arith

-- `Add` refuses a range exactly if an entry of the pool holds it; otherwise the range is the pool's
-- last entry from then on, with the time of the call.
pub add_lem :
    (now : ℕ) (f t : ℤ) (mdm : MissedDataManager)
    → (((m : MissedData) × In m mdm.missed_data_pool × Covering f t m)
        → add now f t mdm ≡ (mdm, false))
      × (¬ ((m : MissedData) × In m mdm.missed_data_pool × Covering f t m)
          → add now f t mdm ≡ (
            record mdm {
              missed_data_pool =
                  mdm.missed_data_pool ++ record { ts = now; from_pulse = f; to_pulse = t } ∷ [];
            },
            true,
          ))
unfolding add
add_lem now f t mdm = (
  (λ (m, k, c). rw (any-intro (within f t) mdm.missed_data_pool m k ((within_iff f t m).1 c))),
  (λ none_holds. elim (Bool-cases (any (within f t) mdm.missed_data_pool)) [
    | inl e ↦
        let (m, k, w) = any-witness (within f t) mdm.missed_data_pool e in
        absurd (none_holds (m, k, (within_iff f t m).0 w))
    | inr e ↦ rw e
  ]),
)

-- The manager's operations, with the readings of the clock.
pub data PoolCall : Type 0 where
  adds : ℕ → ℤ → ℤ → PoolCall
  cleans : (ℕ → ℕ) → PoolCall

pub step : MissedDataManager → PoolCall → MissedDataManager
step mdm (adds now f t) = (add now f t mdm).0
step mdm (cleans clock) = delete_expired clock mdm

pub run : MissedDataManager → List PoolCall → MissedDataManager
run mdm [] = mdm
run mdm (c ∷ cs) = run (step mdm c) cs

-- No reading of a cleaning is later than `limit`.
abbrev pub CleansBefore : ℕ → PoolCall → Type 0
CleansBefore limit (adds now f t) = Unit
CleansBefore limit (cleans clock) = (i : ℕ) → clock i ≤ limit

Mem-any :
    (p : MissedData → Bool) (m : MissedData) (xs : List MissedData)
    → Mem m xs
    → p m ≡ true
    → any p xs ≡ true
Mem-any p m [] k e = absurd (not-mem-nil k)
Mem-any p m (x ∷ xs) k e =
    Or.elim (Bool-set _ _) (mem-cons.0 k) (λ q. let h : p x ≡ true = rw (← q) e in ground arith)
      (λ k'. let h = Mem-any p m xs k' e in ground arith)

Mem-All :
    (P : MissedData → Type 0) (m : MissedData) (xs : List MissedData)
    → All P xs
    → (P m → ⊥)
    → Mem m xs
    → ⊥
Mem-All P m [] a n k = not-mem-nil k
Mem-All P m (x ∷ xs) a n k =
    Or.elim ⊥_prop (mem-cons.0 k) (λ q. n (rw q a.0)) (λ k'. Mem-All P m xs a.1 n k')

ttl-step : (mdm : MissedDataManager) (c : PoolCall) → (step mdm c).ttl ≡ mdm.ttl
unfolding step add delete_expired
ttl-step mdm (adds now f t) = ground arith
ttl-step mdm (cleans clock) = refl

step_keeps :
    (m : MissedData) (mdm : MissedDataManager) (c : PoolCall)
    → CleansBefore (m.ts + mdm.ttl) c
    → Mem m mdm.missed_data_pool
    → Mem m (step mdm c).missed_data_pool
unfolding step add is_expired
step_keeps m mdm (adds now f t) h k = elim (Bool-cases (any (within f t) mdm.missed_data_pool)) [
  | inl e ↦ rw (e, step) k
  | inr e ↦ rw (e, step) (mem-append_left _ k)
]
step_keeps m mdm (cleans clock) h k =
    let (gone, p, a) = delete_expired-Cleans clock mdm in
    Or.elim Mem-prop (mem-append.0 ((Perm.mem_iff p).0 k))
      (λ g. absurd (Mem-All (ExpiredAt clock mdm.ttl) m gone a fresh g)) (λ r. r)
  where
    fresh : ExpiredAt clock mdm.ttl m → ⊥
    fresh (i, e) =
        let early = h i in let late : is_expired mdm.ttl (clock i) m.ts ≡ true = e in ground arith

run_keeps :
    (m : MissedData) (mdm : MissedDataManager) (cs : List PoolCall)
    → All (CleansBefore (m.ts + mdm.ttl)) cs
    → Mem m mdm.missed_data_pool
    → Mem m (run mdm cs).missed_data_pool
unfolding run
run_keeps m mdm [] h k = k
run_keeps m mdm (c ∷ cs) h k =
    run_keeps m (step mdm c) cs (rw (ttl-step mdm c) h.1) (step_keeps m mdm c h.0 k)

added_Mem :
    (now : ℕ) (f t : ℤ) (mdm : MissedDataManager)
    → (add now f t mdm).1 ≡ true
    → Mem (record { ts = now; from_pulse = f; to_pulse = t }) (add now f t mdm).0.missed_data_pool
unfolding add
added_Mem now f t mdm h = elim (Bool-cases (any (within f t) mdm.missed_data_pool)) [
  | inl e ↦ absurd (ground arith)
  | inr e ↦ rw e (mem-append_right mdm.missed_data_pool mem-cons_self)
]

ttl-add : (now : ℕ) (f t : ℤ) (mdm : MissedDataManager) → (add now f t mdm).0.ttl ≡ mdm.ttl
unfolding add
ttl-add now f t mdm = ground arith

Mem-refused :
    (now : ℕ) (f t : ℤ) (m : MissedData) (mdm : MissedDataManager)
    → Mem m mdm.missed_data_pool
    → Covering f t m
    → (add now f t mdm).1 ≡ false
unfolding add
Mem-refused now f t m mdm k c =
    rw (Mem-any (within f t) m mdm.missed_data_pool k ((within_iff f t m).1 c))

-- Once `Add` has let a range pass, every range within it is refused after any number of other
-- calls, as long as each cleaning reads the clock within the time to live.
pub no_reload_within_ttl :
    (mdm : MissedDataManager) (now now' : ℕ) (f t f' t' : ℤ) (cs : List PoolCall)
    → (add now f t mdm).1 ≡ true
    → All (CleansBefore (now + mdm.ttl)) cs
    → f ≤ℤ f'
    → t' ≤ℤ t
    → (add now' f' t' (run (add now f t mdm).0 cs)).1 ≡ false
no_reload_within_ttl mdm now now' f t f' t' cs passed early hf ht =
    Mem-refused now' f' t' entry _
      (run_keeps entry (add now f t mdm).0 cs (rw (ttl-add now f t mdm) early)
        (added_Mem now f t mdm passed))
      (hf, ht)
  where
    entry : MissedData
    entry = record { ts = now; from_pulse = f; to_pulse = t }
