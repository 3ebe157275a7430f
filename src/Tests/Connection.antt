-- ===== src/Tests/Connection.antt =====
-- Tokens of five minutes that are refreshed a minute before their end, and a connection over TLS.
use block_explorer.Prelude.{
  ◌≡◌, ◌⊎◌, refl, true, false, some, none, [], ◌∷◌, codes, arith, pos, if◌then◌else◌,
}
use block_explorer.Connection.{
  TokenCredentials, no_token, need_new_token, duration_bits, is_before, responded,
  require_transport_security, Auth, DialOptions, tls, insecure, dial_options, notify_shutdown,
  has_suffix, default_connection_checker, shutdown_callback,
}
use block_explorer.Connection.Fresh.{KeepsToken, TakesToken, outcome, get_request_metadata_lem}
use block_explorer.Connection.Secure.{dial_options_lem}
use block_explorer.Go.Strings.{has_prefix}

abbrev credentials : TokenCredentials
credentials = record {
  refresh_offset = pos 60;
  insecure_tls = false;
  token = record { access_token = codes "abc"; expires_in = pos 300; received_at = 1_000_000_000 };
}

-- Four minutes after its receipt the token is used for the last time.
last_use : need_new_token 241_000_000_000 credentials ≡ false
unfolding need_new_token duration_bits is_before
last_use = refl

get_request_metadata_lem_example :
    KeepsToken 241_000_000_000 242_000_000_000 (responded 200 none) credentials 300 60
    ⊎ TakesToken 241_000_000_000 242_000_000_000 (responded 200 none) credentials
    ⊎ (outcome 241_000_000_000 242_000_000_000 (responded 200 none) credentials
        ≡ (credentials, none))
get_request_metadata_lem_example =
    get_request_metadata_lem 241_000_000_000 242_000_000_000 (responded 200 none) credentials 300 60
      refl refl (record { longer = omega arith; in_range = omega arith })

abbrev auth : Auth
auth = record { required = true; refresh_offset = pos 60; insecure_tls = false }

abbrev fresh : TokenCredentials
fresh = record { refresh_offset = pos 60; insecure_tls = false; token = no_token }

abbrev options : DialOptions
options = record { transport = tls; per_rpc_credentials = some fresh }

made : dial_options true auth ≡ some options
unfolding dial_options
made = refl

over_tls : options.transport ≡ (if require_transport_security fresh then tls else insecure)
over_tls = (dial_options_lem true auth options fresh made refl).2

-- A connection that recovers in time, and then one that does not.
stops : notify_shutdown ((true, true) ∷ (false, false) ∷ (true, false) ∷ []) ≡ true
unfolding notify_shutdown
stops = refl

refused : shutdown_callback ((codes "dial tcp: connection refused", false) ∷ []) false ≡ true
unfolding shutdown_callback default_connection_checker has_suffix has_prefix
refused = refl
