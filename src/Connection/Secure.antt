-- ===== src/Connection/Secure.antt =====
-- Over which connections the token is sent.
use block_explorer.Prelude.{
  ◌≡◌, inl, inr, Bool, true, false, not, some, arith, Bool-cases, if◌then◌else◌,
}
use block_explorer.Connection.{
  TokenCredentials, require_transport_security, Auth, insecure, tls, DialOptions, dial_options,
}

-- A connection has credentials only if the settings require them; it is then a TLS connection exactly
-- when the credentials ask for one, and without TLS only if the settings say so.
pub dial_options_lem :
    (has_cert_pool : Bool) (auth : Auth) (options : DialOptions) (c : TokenCredentials)
    → dial_options has_cert_pool auth ≡ some options
    → options.per_rpc_credentials ≡ some c
    → (auth.required ≡ true)
      × (require_transport_security c ≡ not auth.insecure_tls)
      × (options.transport ≡ (if require_transport_security c then tls else insecure))
unfolding dial_options require_transport_security
dial_options_lem has_cert_pool auth options c made e = elim (Bool-cases auth.required) [
  | inr r ↦ absurd (ground arith)
  | inl r ↦ elim (Bool-cases has_cert_pool) [
    | inr p ↦ absurd (ground arith)
    | inl p ↦ elim (Bool-cases auth.insecure_tls) [
      | inl i ↦
          let own : c.insecure_tls ≡ true = ground arith in (r, (ground arith), (ground arith))
      | inr i ↦
          let own : c.insecure_tls ≡ false = ground arith in (r, (ground arith), (ground arith))
    ]
  ]
]
