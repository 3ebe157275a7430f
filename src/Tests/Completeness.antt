-- ===== src/Tests/Completeness.antt =====
-- Completeness of a pulse, and the pool of ranges, on small inputs.
use block_explorer.Prelude.{
  ℕ, ◌≡◌, ◌↔◌, refl, inl, inr, Bool, true, false, none, some, List, [], ◌∷◌, Text, codes, arith, In,
  pos, length, ◌/◌,
}
use block_explorer.Controller.Completeness.{
  flip, invert_last_symbol, starts_with, contains, has_sibling, sibling_round, sibling_loop,
  parent_round, parent_iterator, parent_loop, both_loops, pulse_is_complete,
}
use block_explorer.Controller.Completeness.Covering.{
  Covers, IsBits, IsPrefixFree, pulse_is_complete_iff,
}
use block_explorer.Controller.Completeness.Panics.{MeetsRoot, panics_iff}
use block_explorer.Controller.Completeness.Root.{pulse_is_complete_total}
use block_explorer.Controller.MissedData.{
  MissedData, MissedDataManager, add, is_expired, delete_expired,
}
use block_explorer.Controller.MissedData.Removal.{delete_expired_half}
use block_explorer.Controller.MissedData.Throttle.{adds, cleans, run, no_reload_within_ttl}

abbrev halves : List Text
halves = codes "0" ∷ codes "1" ∷ []

abbrev quarters : List Text
quarters = codes "00" ∷ codes "01" ∷ codes "1" ∷ []

halves-IsBits : (s : Text) → In s halves → IsBits s
halves-IsBits s (inl e) = rw e (inl refl, tt)
halves-IsBits s (inr (inl e)) = rw e (inr refl, tt)
halves-IsBits s (inr (inr z)) = absurd z

complete_quarters : pulse_is_complete quarters ≡ some true
unfolding flip invert_last_symbol starts_with contains has_sibling sibling_round sibling_loop
    parent_round parent_iterator parent_loop both_loops pulse_is_complete
complete_quarters = refl

incomplete_quarter : pulse_is_complete (codes "00" ∷ codes "1" ∷ []) ≡ some false
unfolding flip invert_last_symbol starts_with contains has_sibling sibling_round sibling_loop
    parent_round parent_iterator parent_loop both_loops pulse_is_complete
incomplete_quarter = refl

complete_halves : pulse_is_complete halves ≡ some true
unfolding flip invert_last_symbol starts_with contains has_sibling sibling_round sibling_loop
    parent_round parent_iterator parent_loop both_loops pulse_is_complete
complete_halves = refl

halves-IsPrefixFree : IsPrefixFree halves
halves-IsPrefixFree =
    ((((λ (r, e). absurd (ground arith)), (λ (r, e). absurd (ground arith))), tt), (tt, tt))

pulse_is_complete_iff_example : (pulse_is_complete halves ≡ some true) ↔ Covers halves
pulse_is_complete_iff_example = pulse_is_complete_iff halves halves-IsBits halves-IsPrefixFree

-- The root behind a half that has its opposite.
abbrev late_root : List Text
late_root = codes "0" ∷ [] ∷ codes "1" ∷ []

panics_iff_example : (pulse_is_complete late_root ≡ none) ↔ MeetsRoot late_root late_root
panics_iff_example = panics_iff (codes "0") [] (codes "1" ∷ [])

late_root_panics : pulse_is_complete late_root ≡ none
unfolding flip invert_last_symbol starts_with contains has_sibling sibling_round sibling_loop
    both_loops pulse_is_complete
late_root_panics = refl

halves_rootless : In [] halves → ⊥
halves_rootless m = ground arith

pulse_is_complete_total_example : (b : Bool) × (pulse_is_complete halves ≡ some b)
pulse_is_complete_total_example = pulse_is_complete_total halves halves_rootless

-- A pool with a time to live of 100, at the time 5.
abbrev pool : MissedDataManager
pool = record { missed_data_pool = []; ttl = 100; clean_period = 10 }

first_is_added : (add 5 (pos 10) (pos 20) pool).1 ≡ true
unfolding add
first_is_added = refl

no_reload_within_ttl_example :
    (add 60
      (pos 12)
      (pos 18)
      (run (add 5 (pos 10) (pos 20) pool).0 (cleans (λ i. 50) ∷ adds 55 (pos 30) (pos 40) ∷ []))).1
    ≡ false
no_reload_within_ttl_example =
    no_reload_within_ttl pool 5 60 (pos 10) (pos 20) (pos 12) (pos 18)
      (cleans (λ i. 50) ∷ adds 55 (pos 30) (pos 40) ∷ []) first_is_added
      ((λ i. ground arith), (tt, tt)) (omega arith) (omega arith)

abbrev old : ℕ → MissedData
old n = record { ts = n; from_pulse = pos n; to_pulse = pos n }

abbrev full_pool : MissedDataManager
full_pool = record pool { missed_data_pool = old 1 ∷ old 2 ∷ old 3 ∷ [] }

delete_expired_half_example : length (delete_expired (λ i. 1000) full_pool).missed_data_pool ≡ 3 / 2
unfolding is_expired
delete_expired_half_example =
    delete_expired_half (λ i. 1000) full_pool ((λ j. refl), ((λ j. refl), ((λ j. refl), tt)))
