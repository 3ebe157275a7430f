-- ===== src/Connection/Fresh.antt =====
-- The token that a request carries is one that the platform still takes.
use block_explorer.Prelude.{
  ℕ, ◌+◌, ◌-◌, ◌*◌, ◌^◌, ◌≤◌, ◌<◌, ◌≡◌, ◌≢◌, ◌⊎◌, refl, ap, subst, inl, inr, true, false, Option,
  none, some, [], ◌++◌, Text, codes, arith, ltb, pos, ℤ, Bool-cases, ◌==◌, ==_true, list_eq, nat_eq,
}
use block_explorer.Connection.{
  TokenCredentials, second, duration_bits, is_before, need_new_token, HttpResult, no_request,
  failed_request, unreadable_body, responded, TokenError, request_error, status_error, parse_error,
  receive_access_token, bearer, get_request_metadata,
}

-- A lifetime longer than the offset, both in the range of Go's durations.
pub record IsPlausible (expires offset : ℕ) : Type 0 where
  pub longer : offset ≤ expires
  pub in_range : expires * second < 2 ^ 63

duration_lem :
    (expires offset : ℕ)
    → IsPlausible expires offset
    → duration_bits (pos expires) (pos offset) ≡ (expires - offset) * second
unfolding duration_bits
duration_lem expires offset v = let longer = v.longer in let in_range = v.in_range in omega arith

fresh_lem :
    (received expires offset now : ℕ)
    → IsPlausible expires offset
    → is_before received (duration_bits (pos expires) (pos offset)) now ≡ false
    → now + offset * second ≤ received + expires * second
unfolding is_before
fresh_lem received expires offset now v h =
    let longer = v.longer in
    let in_range = v.in_range in
    let bits = duration_lem expires offset v in
    let bound : (expires - offset) * second < 2 ^ 63 = omega arith in
    let on_time : ltb (received + (expires - offset) * second) now ≡ false = ground arith in
    ground arith

abbrev pub with_token : Text → ℤ → ℕ → TokenCredentials → TokenCredentials
with_token access_token expires_in now c = record c {
  token = record { access_token = access_token; expires_in = expires_in; received_at = now };
}

receive_cases :
    (result : HttpResult) (now : ℕ) (c : TokenCredentials)
    → ((access_token : Text) × (expires_in : ℤ) × (result
          ≡ responded 200 (some (access_token, expires_in)))
        × (receive_access_token result now c ≡ (with_token access_token expires_in now c, none)))
      ⊎ ((e : TokenError) × (receive_access_token result now c ≡ (c, some e)))
unfolding receive_access_token
receive_cases no_request now c = inr (request_error, refl)
receive_cases failed_request now c = inr (request_error, refl)
receive_cases unreadable_body now c = inr (request_error, refl)
receive_cases (responded status none) now c = elim (Bool-cases (status == 200)) [
  | inl b ↦ rw b (inr (parse_error, refl))
  | inr b ↦ rw b (inr (status_error, refl))
]
receive_cases (responded status (some (access_token, expires_in))) now c =
    elim (Bool-cases (status == 200)) [
      | inl b ↦ rw b (
          inl (
            access_token,
            expires_in,
            ap (λ s. responded s (some (access_token, expires_in))) (==_true status 200 b),
            refl,
          ))
      | inr b ↦ rw b (inr (status_error, refl))
    ]

module _ (now later : ℕ) (result : HttpResult) (c : TokenCredentials) where
  abbrev pub outcome : TokenCredentials × Option Text
  outcome = get_request_metadata now result later c

  -- The stored token, at least the offset before its end.
  abbrev pub KeepsToken : ℕ → ℕ → Type 0
  KeepsToken expires offset =
      (outcome ≡ (c, some (bearer c.token)))
      × (c.token.access_token ≢ [])
      × (now + offset * second ≤ c.token.received_at + expires * second)

  -- The token of an answer with the status 200, which is stored with the time of its receipt.
  abbrev pub TakesToken : Type 0
  TakesToken =
      (access_token : Text) × (expires_in : ℤ) × (result
        ≡ responded 200 (some (access_token, expires_in)))
      × (outcome
          ≡ (with_token access_token expires_in later c, some (codes "Bearer " ++ access_token)))

  received : need_new_token now c ≡ true → TakesToken ⊎ (outcome ≡ (c, none))
  unfolding get_request_metadata
  received n = elim (receive_cases result later c) [
    | inl (a, e, r, f) ↦ inl (a, e, r, rw (n, get_request_metadata) (done a e f))
    | inr (e, f) ↦ inr (rw (n, get_request_metadata) (failed e f))
  ]
    where
      chosen : TokenCredentials × Option TokenError → TokenCredentials × Option Text
      chosen (c', err) = elim err [ some e ↦ (c', none) | none ↦ (c', some (bearer c'.token)) ]

      done :
          (a : Text) (e : ℤ)
          → receive_access_token result later c ≡ (with_token a e later c, none)
          → chosen (receive_access_token result later c)
            ≡ (with_token a e later c, some (codes "Bearer " ++ a))
      done a e f = ap chosen f

      failed :
          (e : TokenError)
          → receive_access_token result later c ≡ (c, some e)
          → chosen (receive_access_token result later c) ≡ (c, none)
      failed e f = ap chosen f

  unchanged : need_new_token now c ≡ false → outcome ≡ (c, some (bearer c.token))
  unfolding get_request_metadata
  unchanged n = rw (n, get_request_metadata) refl

  empty_text : c.token.access_token ≡ [] → (c.token.access_token == []) ≡ false → ⊥
  empty_text e b =
      let wrong : true ≡ false = subst (λ (t : Text). (t == []) ≡ false) e b in ground arith

  -- A request carries either the stored token, at least the offset before it expires, or one that was
  -- just received with the status 200 and is stored with the time of its receipt; when no token is
  -- received, there is no request and the credentials are as before. The lifetime of the stored token
  -- is not below the offset and fits Go's durations.
  pub get_request_metadata_lem :
      (expires offset : ℕ)
      → c.token.expires_in ≡ pos expires
      → c.refresh_offset ≡ pos offset
      → IsPlausible expires offset
      → KeepsToken expires offset ⊎ TakesToken ⊎ (outcome ≡ (c, none))
  unfolding need_new_token
  get_request_metadata_lem expires offset own_e own_o v = elim (Bool-cases (need_new_token now c)) [
    | inl n ↦ inr (received n)
    | inr n ↦ inl (kept n)
  ]
    where
      kept : need_new_token now c ≡ false → KeepsToken expires offset
      kept n = elim (Bool-cases (c.token.access_token == [])) [
        | inl b ↦ absurd (ground arith)
        | inr b ↦
            let held : is_before c.token.received_at
                  (duration_bits c.token.expires_in c.refresh_offset) now
                ≡ false =
              rw (b, need_new_token) at n in
            let early =
              subst (λ o. is_before c.token.received_at (duration_bits (pos expires) o) now ≡ false)
                own_o
                (subst
                  (λ e.
                    is_before c.token.received_at (duration_bits e c.refresh_offset) now ≡ false)
                  own_e held) in
            (
              unchanged n,
              λ e. empty_text e b,
              fresh_lem c.token.received_at expires offset now v early,
            )
      ]
