-- ===== src/Api/Handlers/JetDrops/Links.antt =====
-- The links that the page of a jet shows: which jet drops are given as the next and the previous ones.
use block_explorer.Prelude.{
  ◌≡◌, ◌⊎◌, refl, sym, subst, inl, inr, none, some, List, [], ◌∷◌, ◌++◌, Text, any, any-witness, In,
  In-append_left, In-append_right, lookup, lookup-insert, ◌==◌, ==_true, ==_refl, list_eq, nat_eq,
  Bool-cases, Option-cases,
}
use block_explorer.Go.Base64.{encode_to_string}
use block_explorer.Models.{JetDrop}
use block_explorer.Api.Mappers.{ApiNextPrevJetDrop, transform_prev_next_resp}
use block_explorer.Api.Handlers.JetDrops.{ByPrevHash, add_next, by_prev_hash, or_no_drops, next_of}

abbrev key_of : JetDrop → Text
key_of d = encode_to_string d.first_prev_hash

abbrev nexts : Text → ByPrevHash → List ApiNextPrevJetDrop
nexts k m = or_no_drops (lookup k m)

-- What is under a hash after one jet drop more: that jet drop may have come last.
add_next_cases :
    (d : JetDrop) (m : ByPrevHash) (k : Text)
    → (nexts k (add_next d m) ≡ nexts k m)
      ⊎ ((key_of d ≡ k) × (nexts k (add_next d m) ≡ nexts k m ++ transform_prev_next_resp d ∷ []))
unfolding add_next
add_next_cases d m k = elim (Option-cases (lookup (key_of d) m)) [
  | inl e ↦
      rw (e, add_next)
        (rw (lookup-insert (key_of d) k (transform_prev_next_resp d ∷ []) m)
          (elim (Bool-cases (key_of d == k)) [
            | inr b ↦ rw b (inl refl)
            | inl b ↦
                let same = ==_true (key_of d) k b in
                let nothing : lookup k m ≡ none = subst (λ j. lookup j m ≡ none) same e in
                rw b (rw nothing (inr (same, refl)))
          ]))
  | inr (saved, e) ↦
      elim (Bool-cases
        (any (λ s. s.jet_drop_id == (transform_prev_next_resp d).jet_drop_id) saved)) [
          | inl a ↦ rw (e, add_next) (rw a (inl refl))
          | inr a ↦
              rw (e, add_next)
                (rw a (
                  rw (lookup-insert (key_of d) k (saved ++ transform_prev_next_resp d ∷ []) m)
                    (elim (Bool-cases (key_of d == k)) [
                      | inr b ↦ rw b (inl refl)
                      | inl b ↦
                          let same = ==_true (key_of d) k b in
                          let there : lookup k m ≡ some saved =
                            subst (λ j. lookup j m ≡ some saved) same e in
                          rw b (rw there (inr (same, refl)))
                    ])))
        ]
]

-- A jet drop is shown under its previous hash.
abbrev Shows : JetDrop → ByPrevHash → Type 0
Shows d m =
    (n : ApiNextPrevJetDrop) × In n (nexts (key_of d) m)
    × (n.jet_drop_id ≡ (transform_prev_next_resp d).jet_drop_id)

add_next-Shows : (d : JetDrop) (m : ByPrevHash) → Shows d (add_next d m)
unfolding add_next
add_next-Shows d m = elim (Option-cases (lookup (key_of d) m)) [
  | inl e ↦
      rw (e, add_next)
        (rw (lookup-insert (key_of d) (key_of d) (transform_prev_next_resp d ∷ []) m)
          (rw (==_refl (key_of d)) (transform_prev_next_resp d, inl refl, refl)))
  | inr (saved, e) ↦
      elim (Bool-cases
        (any (λ s. s.jet_drop_id == (transform_prev_next_resp d).jet_drop_id) saved)) [
          | inl a ↦
              let (s, known, named) =
                any-witness (λ s. s.jet_drop_id == (transform_prev_next_resp d).jet_drop_id) saved
                  a in
              rw (e, add_next) (rw a (rw e (s, known, ==_true _ _ named)))
          | inr a ↦
              rw (e, add_next)
                (rw a (
                  rw
                    (lookup-insert (key_of d) (key_of d) (saved ++ transform_prev_next_resp d ∷ [])
                      m)
                    (rw (==_refl (key_of d)) (
                      transform_prev_next_resp d,
                      In-append_right _ saved (transform_prev_next_resp d ∷ []) (inl refl),
                      refl,
                    ))))
        ]
]

add_next_keeps : (d e : JetDrop) (m : ByPrevHash) → Shows e m → Shows e (add_next d m)
add_next_keeps d e m (n, there, named) = elim (add_next_cases d m (key_of e)) [
  | inl same ↦ (n, subst (In n) (sym same) there, named)
  | inr (_, longer) ↦
      (n, subst (In n) (sym longer) (In-append_left n (nexts (key_of e) m) _ there), named)
]

by_prev_hash_keeps :
    (drops : List JetDrop) (e : JetDrop) (m : ByPrevHash)
    → Shows e m
    → Shows e (by_prev_hash drops m)
unfolding by_prev_hash
by_prev_hash_keeps [] e m h = h
by_prev_hash_keeps (d ∷ drops) e m h =
    by_prev_hash_keeps drops e (add_next d m) (add_next_keeps d e m h)

by_prev_hash-Shows :
    (drops : List JetDrop) (e : JetDrop) (m : ByPrevHash)
    → In e drops
    → Shows e (by_prev_hash drops m)
unfolding by_prev_hash
by_prev_hash-Shows [] e m i = absurd i
by_prev_hash-Shows (d ∷ drops) e m (inl same) =
    by_prev_hash_keeps drops e (add_next d m)
      (subst (λ x. Shows x (add_next d m)) (sym same) (add_next-Shows d m))
by_prev_hash-Shows (d ∷ drops) e m (inr i) = by_prev_hash-Shows drops e (add_next d m) i

module _ (all_drops : List JetDrop) where
  -- What is shown under a hash is a jet drop with this previous hash.
  abbrev Comes : ByPrevHash → Type 0
  Comes m =
      (k : Text) (n : ApiNextPrevJetDrop)
      → In n (nexts k m)
      → (e : JetDrop) × In e all_drops × (key_of e ≡ k) × (n ≡ transform_prev_next_resp e)

  In-append_last : {A : Type 0} (n x : A) (xs : List A) → In n (xs ++ x ∷ []) → In n xs ⊎ (n ≡ x)
  In-append_last n x [] (inl e) = inr e
  In-append_last n x [] (inr z) = absurd z
  In-append_last n x (y ∷ xs) (inl e) = inl (inl e)
  In-append_last n x (y ∷ xs) (inr i) = elim (In-append_last n x xs i) [
    | inl j ↦ inl (inr j)
    | inr e ↦ inr e
  ]

  add_next-Comes : (d : JetDrop) (m : ByPrevHash) → In d all_drops → Comes m → Comes (add_next d m)
  add_next-Comes d m i h k n there = elim (add_next_cases d m k) [
    | inl same ↦ h k n (subst (In n) same there)
    | inr (own, longer) ↦
        elim (In-append_last n (transform_prev_next_resp d) (nexts k m)
          (subst (In n) longer there)) [ inl before ↦ h k n before | inr last ↦ (d, i, own, last) ]
  ]

  by_prev_hash-Comes :
      (drops : List JetDrop) (m : ByPrevHash)
      → ((e : JetDrop) → In e drops → In e all_drops)
      → Comes m
      → Comes (by_prev_hash drops m)
  unfolding by_prev_hash
  by_prev_hash-Comes [] m sub h = h
  by_prev_hash-Comes (d ∷ drops) m sub h =
      by_prev_hash-Comes drops (add_next d m) (λ e i. sub e (inr i))
        (add_next-Comes d m (sub d (inl refl)) h)

  -- The next jet drops of one are exactly the ones whose first previous hash it has: whatever is shown
  -- is one of these, and the name of each of these is shown. A second previous hash gives no link.
  pub next_of_lem :
      (d : JetDrop)
      → ((n : ApiNextPrevJetDrop)
          → In n (next_of (by_prev_hash all_drops []) d)
          → (e : JetDrop) × In e all_drops
            × (encode_to_string e.first_prev_hash ≡ encode_to_string d.hash)
            × (n ≡ transform_prev_next_resp e))
        × ((e : JetDrop)
            → In e all_drops
            → encode_to_string e.first_prev_hash ≡ encode_to_string d.hash
            → (n : ApiNextPrevJetDrop) × In n (next_of (by_prev_hash all_drops []) d)
              × (n.jet_drop_id ≡ (transform_prev_next_resp e).jet_drop_id))
  unfolding next_of
  next_of_lem d = (
    λ n there.
        by_prev_hash-Comes all_drops [] (λ e i. i) (λ k n z. absurd z) (encode_to_string d.hash) n
          there,
    λ e i own.
        subst
          (λ k.
            (n : ApiNextPrevJetDrop) × In n (nexts k (by_prev_hash all_drops []))
            × (n.jet_drop_id ≡ (transform_prev_next_resp e).jet_drop_id))
          own (by_prev_hash-Shows all_drops e [] i),
  )
