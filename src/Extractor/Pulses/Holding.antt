-- ===== src/Extractor/Pulses/Holding.antt =====
-- The counter of workers and who holds them.
use mathlib.Core.Option.{some-injective}
use block_explorer.Prelude.{
  ℕ, zero, suc, ◌+◌, ◌-◌, ◌≤◌, ◌≡◌, refl, ap, subst, Bool, true, false, Option, some, List, [], ◌∷◌,
  ◌++◌, arith, get_elem?, set, if◌then◌else◌, nat_eq, All,
}
use block_explorer.Platform.{FullPulse}
use block_explorer.Extractor.{
  Messages, Phase, top, waiting, overdrawn, asking, returned, broken, Thread, Task, retrieving,
  done, PlatformExtractor, free_worker, free_unless,
}
use block_explorer.Extractor.Records.{
  Client, Retrieval, retrieved, given_up, pending, conclude, retrieve_records,
}

abbrev pub total {ℓ} : {A : Type ℓ} → (A → ℕ) → List A → ℕ
total f [] = 0
total f (x ∷ xs) = f x + total f xs

pub total-append {ℓ} :
    {A : Type ℓ} (f : A → ℕ) (xs : List A) (y : A) → total f (xs ++ y ∷ []) ≡ total f xs + f y
total-append f [] y = omega arith
total-append f (x ∷ xs) y = omega (arith, total-append f xs y)

pub total-set {ℓ} :
    {A : Type ℓ} (f : A → ℕ) (xs : List A) (i : ℕ) (x y : A)
    → get_elem? xs i ≡ some x
    → total f (set xs i y) + f x ≡ total f xs + f y
total-set f [] i x y e = cc
total-set f (w ∷ xs) zero x y e = let same : f w ≡ f x = ap f (some-injective w x e) in omega arith
total-set f (w ∷ xs) (suc i) x y e = omega (arith, total-set f xs i x y e)

pub total-get {ℓ} :
    {A : Type ℓ} (f : A → ℕ) (xs : List A) (i : ℕ) (x : A)
    → get_elem? xs i ≡ some x
    → f x ≤ total f xs
total-get f [] i x e = cc
total-get f (w ∷ xs) zero x e = let same : f w ≡ f x = ap f (some-injective w x e) in omega arith
total-get f (w ∷ xs) (suc i) x e = omega (arith, total-get f xs i x e)

-- A thread of a range counts itself while it asks for a pulse, after a version error, and from its
-- first addition to the second one.
abbrev pub in_phase : Phase → ℕ
in_phase top = 0
in_phase waiting = 0
in_phase overdrawn = 1
in_phase asking = 1
in_phase returned = 0
in_phase broken = 1

abbrev pub thread_counts : Thread → ℕ
thread_counts t = if t.main_thread then 0 else in_phase t.phase

-- It holds a worker while it asks for a pulse, and keeps it after a version error.
abbrev pub working_in : Phase → ℕ
working_in top = 0
working_in waiting = 0
working_in overdrawn = 0
working_in asking = 1
working_in returned = 0
working_in broken = 1

abbrev pub thread_holds : Thread → ℕ
thread_holds t = if t.main_thread then 0 else working_in t.phase

working-le : (p : Phase) → working_in p ≤ in_phase p
working-le top = omega arith
working-le waiting = omega arith
working-le overdrawn = omega arith
working-le asking = omega arith
working-le returned = omega arith
working-le broken = omega arith

holds-le-counts : (t : Thread) → thread_holds t ≤ thread_counts t
holds-le-counts t =
    if_elim2 t.main_thread (working_in t.phase) (in_phase t.phase) (working-le t.phase)
  where
    if_elim2 : (b : Bool) (x y : ℕ) → x ≤ y → (if b then 0 else x) ≤ (if b then 0 else y)
    if_elim2 true x y h = omega arith
    if_elim2 false x y h = h

total_holds-le : (ts : List Thread) → total thread_holds ts ≤ total thread_counts ts
total_holds-le [] = omega arith
total_holds-le (t ∷ ts) = omega (arith, holds-le-counts t, total_holds-le ts)

-- The other threads hold no more than they count.
pub rest_holds-le :
    (ts : List Thread) (i : ℕ) (t : Thread)
    → get_elem? ts i ≡ some t
    → total thread_holds ts + thread_counts t ≤ total thread_counts ts + thread_holds t
rest_holds-le [] i t e = cc
rest_holds-le (u ∷ ts) zero t e =
    let same = some-injective u t e in
    let holds = ap thread_holds same in
    let counts = ap thread_counts same in omega (arith, total_holds-le ts)
rest_holds-le (u ∷ ts) (suc i) t e = omega (arith, holds-le-counts u, rest_holds-le ts i t e)

abbrev pub task_holds : Task → ℕ
task_holds (retrieving pu main_thread) = if main_thread then 0 else 1
task_holds done = 0

-- Only threads of ranges wait for a worker.
abbrev pub for_worker : Phase → Bool
for_worker top = false
for_worker waiting = true
for_worker overdrawn = true
for_worker asking = false
for_worker returned = false
for_worker broken = false

abbrev pub Waits : Thread → Type 0
Waits t = for_worker t.phase ≡ true → t.main_thread ≡ false

pub All-get {κ} :
    {A : Type 0} (P : A → Type κ) (xs : List A) (i : ℕ) (x : A)
    → All P xs
    → get_elem? xs i ≡ some x
    → P x
All-get P [] i x h e = cc
All-get P (w ∷ xs) zero x h e = subst P (some-injective w x e) h.0
All-get P (w ∷ xs) (suc i) x h e = All-get P xs i x h.1 e

-- The counter is the number of goroutines that hold a worker and of the threads that have counted
-- themselves beyond the maximum; those that hold one are within it.
pub record IsCounted (e : PlatformExtractor) : Type 0 where
  pub exact : e.workers ≡ total thread_counts e.threads + total task_holds e.tasks
  pub bounded : total thread_holds e.threads + total task_holds e.tasks ≤ e.max_workers
  pub waits : All Waits e.threads

-- Of a retrieval that ends: its goroutine's worker is freed, and nothing else is touched.
pub record Frees (main_thread : Bool) (e e' : PlatformExtractor) : Type 0 where
  pub workers : e'.workers ≡ (if main_thread then e.workers else e.workers - 1)
  pub max_workers : e'.max_workers ≡ e.max_workers
  pub threads : e'.threads ≡ e.threads
  pub tasks : e'.tasks ≡ e.tasks

pub free_unless-Frees :
    (main_thread : Bool) (e : PlatformExtractor) → Frees main_thread e (free_unless main_thread e)
unfolding free_unless free_worker
free_unless-Frees true e = record {
  workers = refl;
  max_workers = refl;
  threads = refl;
  tasks = refl;
}
free_unless-Frees false e = record {
  workers = refl;
  max_workers = refl;
  threads = refl;
  tasks = refl;
}

module _ (texts : Messages) where
  conclude-Frees :
      (pu : FullPulse) (main_thread : Bool) (end : Retrieval) (e e' : PlatformExtractor)
      (next : Option ℕ)
      → conclude texts pu main_thread end e ≡ some (e', next)
      → Frees main_thread e e'
  unfolding conclude free_unless free_worker
  conclude-Frees pu true (retrieved records n) e e' next h = ground arith
  conclude-Frees pu false (retrieved records n) e e' next h = ground arith
  conclude-Frees pu true (given_up true) e e' next h = ground arith
  conclude-Frees pu true (given_up false) e e' next h = ground arith
  conclude-Frees pu false (given_up true) e e' next h = ground arith
  conclude-Frees pu false (given_up false) e e' next h = ground arith
  conclude-Frees pu main_thread (pending records) e e' next h = cc

  pub retrieve_records-Frees :
      (client : Client) (rounds : ℕ) (pu : FullPulse) (main_thread skip : Bool)
      (e e' : PlatformExtractor) (next : Option ℕ)
      → retrieve_records texts client rounds pu main_thread skip e ≡ some (e', next)
      → Frees main_thread e e'
  unfolding retrieve_records free_unless free_worker
  retrieve_records-Frees client rounds pu true true e e' next h = ground arith
  retrieve_records-Frees client rounds pu false true e e' next h = ground arith
  retrieve_records-Frees client rounds pu main_thread false e e' next h =
      conclude-Frees pu main_thread _ e e' next h
