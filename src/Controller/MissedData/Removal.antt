-- ===== src/Controller/MissedData/Removal.antt =====
-- What `deleteExpired` takes away and what it leaves.
use mathlib.Core.List.{Perm, append_assoc}
use mathlib.Core.List.Perm
use block_explorer.Prelude.{
  ℕ, zero, suc, ◌+◌, ◌-◌, ◌/◌, ◌≤◌, ◌<◌, ◌≡◌, refl, ap, inl, inr, true, none, some, List, [], ◌∷◌,
  ◌++◌, length, arith, get_elem?, get_or, set, take, All, In, All-In, All-append, All-take, All-set,
  All-get_or, length-take, length-set, min, ◌⊎◌, Bool-cases, Option-cases,
}
use block_explorer.Controller.MissedData.{
  MissedData, MissedDataManager, zero_missed, is_expired, swap_remove, delete_round, delete_loop,
  delete_expired,
}

take-set {ℓ} : {A : Type ℓ} (n : ℕ) (xs : List A) (v : A) → take n (set xs n v) ≡ take n xs
take-set zero xs v = refl
take-set (suc n) [] v = refl
take-set (suc n) (x ∷ xs) v = ap (λ t. x ∷ t) (take-set n xs v)

-- The last entry, taken to the front.
last_perm :
    (x : MissedData) (xs : List MissedData)
    → Perm (x ∷ xs) (get_or (x ∷ xs) (length xs) zero_missed ∷ take (length xs) (x ∷ xs))
last_perm x [] = Perm.refl _
last_perm x (y ∷ ys) = Perm.trans (Perm.cons x (last_perm y ys)) (Perm.swap _ x _)

-- The pool without index `i`, where `last` is the index of its last entry.
abbrev moved : ℕ → ℕ → List MissedData → List MissedData
moved i last pool = take last (set pool i (get_or pool last zero_missed))

moved_perm :
    (i : ℕ) (x : MissedData) (xs : List MissedData) (m : MissedData)
    → get_elem? (x ∷ xs) i ≡ some m
    → Perm (x ∷ xs) (m ∷ moved i (length xs) (x ∷ xs))
moved_perm zero x [] m h = let e : x ≡ m = cc in rw e (Perm.refl _)
moved_perm zero x (y ∷ ys) m h = let e : x ≡ m = cc in rw e (Perm.cons m (last_perm y ys))
moved_perm (suc i) x [] m h = cc
moved_perm (suc i) x (y ∷ ys) m h =
    Perm.trans (Perm.cons x (moved_perm i y ys m h)) (Perm.swap m x _)

swap_remove-moved :
    (i : ℕ) (x : MissedData) (xs : List MissedData)
    → swap_remove i (x ∷ xs) ≡ moved i (length xs) (x ∷ xs)
unfolding swap_remove
swap_remove-moved i x xs =
    let e : suc (length xs) - 1 ≡ length xs = omega arith in
    rw e (take-set (length xs) _ zero_missed)

-- One entry goes, the one at the index.
pub swap_remove-perm :
    (i : ℕ) (pool : List MissedData) (m : MissedData)
    → get_elem? pool i ≡ some m
    → Perm pool (m ∷ swap_remove i pool)
swap_remove-perm i [] m h = cc
swap_remove-perm i (x ∷ xs) m h = rw (swap_remove-moved i x xs) (moved_perm i x xs m h)

-- The entry had expired at some reading of the clock.
abbrev pub ExpiredAt : (ℕ → ℕ) → ℕ → MissedData → Type 0
ExpiredAt clock ttl m = (i : ℕ) × (is_expired ttl (clock i) m.ts ≡ true)

-- What a call leaves and what it takes away are the pool, and it takes away expired entries only.
abbrev pub Cleans : (ℕ → ℕ) → ℕ → List MissedData → List MissedData → Type 0
Cleans clock ttl before after =
    (gone : List MissedData) × Perm before (gone ++ after) × All (ExpiredAt clock ttl) gone

delete_round-Cleans :
    (clock : ℕ → ℕ) (ttl i : ℕ) (pool : List MissedData)
    → Cleans clock ttl pool (delete_round clock ttl i pool)
unfolding delete_round
delete_round-Cleans clock ttl i pool = elim (Option-cases (get_elem? pool i)) [
  | inl e ↦ rw (e, delete_round) ([], Perm.refl pool, tt)
  | inr (m, e) ↦ elim (Bool-cases (is_expired ttl (clock i) m.ts)) [
    | inl x ↦ rw (e, delete_round) (rw x (m ∷ [], swap_remove-perm i pool m e, ((i, x), tt)))
    | inr x ↦ rw (e, delete_round) (rw x ([], Perm.refl pool, tt))
  ]
]

Cleans-trans :
    (clock : ℕ → ℕ) (ttl : ℕ) {a b c : List MissedData}
    → Cleans clock ttl a b
    → Cleans clock ttl b c
    → Cleans clock ttl a c
Cleans-trans clock ttl {c = c} (g, p, h) (g', p', h') = (
  g ++ g',
  rw (append_assoc g g' c) (Perm.trans p (Perm.append (Perm.refl g) p')),
  All-append _ g g' h h',
)

delete_loop-Cleans :
    (clock : ℕ → ℕ) (ttl rounds i : ℕ) (pool : List MissedData)
    → Cleans clock ttl pool (delete_loop clock ttl rounds i pool)
unfolding delete_loop
delete_loop-Cleans clock ttl zero i pool = ([], Perm.refl pool, tt)
delete_loop-Cleans clock ttl (suc rounds) i pool =
    Cleans-trans clock ttl (delete_round-Cleans clock ttl i pool)
      (delete_loop-Cleans clock ttl rounds (suc i) (delete_round clock ttl i pool))

-- Cleaning loses no entry that has not expired, makes none up, and doubles none.
pub delete_expired-Cleans :
    (clock : ℕ → ℕ) (mdm : MissedDataManager)
    → Cleans clock mdm.ttl mdm.missed_data_pool (delete_expired clock mdm).missed_data_pool
unfolding delete_expired
delete_expired-Cleans clock mdm = delete_loop-Cleans clock mdm.ttl _ 0 mdm.missed_data_pool

swap_remove-length :
    (i : ℕ) (pool : List MissedData) (m : MissedData)
    → get_elem? pool i ≡ some m
    → length pool ≡ suc (length (swap_remove i pool))
swap_remove-length i [] m h = cc
swap_remove-length i (x ∷ xs) m h =
    let last = set (x ∷ xs) i (get_or (x ∷ xs) (length xs) zero_missed) in
    omega (
      arith,
      ap length (swap_remove-moved i x xs),
      length-take (length xs) last,
      length-set (x ∷ xs) i (get_or (x ∷ xs) (length xs) zero_missed),
    )

swap_remove-All {κ} :
    (P : MissedData → Type κ) (i : ℕ) (pool : List MissedData) (m : MissedData)
    → get_elem? pool i ≡ some m
    → All P pool
    → All P (swap_remove i pool)
swap_remove-All P i [] m h a = cc
swap_remove-All P i (x ∷ xs) m h a = rw (swap_remove-moved i x xs) (
    All-take P (length xs) _
      (All-set P (x ∷ xs) i _ a (All-get_or P (x ∷ xs) (length xs) zero_missed a (omega arith))))

get_elem?-cases :
    (i : ℕ) (pool : List MissedData)
    → ((get_elem? pool i ≡ none) × (length pool ≤ i))
      ⊎ ((m : MissedData) × (get_elem? pool i ≡ some m) × (i < length pool) × In m pool)
get_elem?-cases i [] = inl (refl, omega arith)
get_elem?-cases zero (x ∷ pool) = inr (x, refl, omega arith, inl refl)
get_elem?-cases (suc i) (x ∷ pool) = elim (get_elem?-cases i pool) [
  | inl (e, l) ↦ inl (e, omega arith)
  | inr (m, e, l, k) ↦ inr (m, e, omega arith, inr k)
]

abbrev pub AlwaysExpired : (ℕ → ℕ) → ℕ → MissedData → Type 0
AlwaysExpired clock ttl m = (j : ℕ) → is_expired ttl (clock j) m.ts ≡ true

module _ (clock : ℕ → ℕ) (ttl : ℕ) where
  delete_loop_half :
      (rounds i : ℕ) (pool : List MissedData)
      → All (AlwaysExpired clock ttl) pool
      → length pool ≤ i + rounds
      → length (delete_loop clock ttl rounds i pool) ≡ min (length pool) i + (length pool - i) / 2
  unfolding delete_loop
  delete_loop_half zero i pool h l = omega arith
  delete_loop_half (suc rounds) i pool h l = elim (get_elem?-cases i pool) [
    | inl (e, k) ↦
        let same : delete_round clock ttl i pool ≡ pool =
          unfold delete_round in rw (e, delete_round) in
        rw same (omega (arith, delete_loop_half rounds (suc i) pool h (omega arith)))
    | inr (m, e, k, n) ↦
        let x = All-In (AlwaysExpired clock ttl) pool m h n i in
        let one : delete_round clock ttl i pool ≡ swap_remove i pool =
          unfold delete_round in rw (e, delete_round) (rw x) in
        let shorter = swap_remove-length i pool m e in
        let rest =
          delete_loop_half rounds (suc i) (swap_remove i pool) (swap_remove-All _ i pool m e h)
            (omega (arith, shorter)) in
        rw one (omega (arith, rest, shorter))
  ]

-- An entry that is moved into a place that the loop has passed is not looked at: of a pool whose
-- entries have all expired, one call takes away only the larger half.
pub delete_expired_half :
    (clock : ℕ → ℕ) (mdm : MissedDataManager)
    → All (AlwaysExpired clock mdm.ttl) mdm.missed_data_pool
    → length (delete_expired clock mdm).missed_data_pool ≡ length mdm.missed_data_pool / 2
unfolding delete_expired
delete_expired_half clock mdm h =
    let pool = mdm.missed_data_pool in
    omega (arith, delete_loop_half clock mdm.ttl (length pool) 0 pool h (omega arith))
