-- ===== src/Connection.antt =====
-- etl/connection and etl/dbconn: the token of the platform's gRPC calls (credentials.go), how the
-- connection is made (grpc_client.go), and what stops the program when a connection is lost. HTTP,
-- gRPC and the database are parameters.
pub mod Fresh
pub mod Secure
use block_explorer.Prelude.{
  ℕ, ◌+◌, ◌-◌, ◌*◌, ◌%◌, ◌^◌, Bool, true, false, not, ◌&&◌, ◌||◌, Option, none, some, List, [], ◌∷◌,
  ◌++◌, Text, codes, ℤ, pos_part, neg_part, any, ltb, ◌==◌, list_eq, nat_eq, if◌then◌else◌,
}
use block_explorer.Go.Strings.{has_prefix}
use mathlib.Core.List.{reverse}

-- A time is its nanoseconds.
pub record Token : Type 0 where
  pub access_token : Text
  pub expires_in : ℤ
  pub received_at : ℕ

abbrev pub no_token : Token
no_token = record { access_token = []; expires_in = ℤ.pos 0; received_at = 0 }

pub record TokenCredentials : Type 0 where
  pub refresh_offset : ℤ
  pub insecure_tls : Bool
  pub token : Token

abbrev pub second : ℕ
second = 1_000_000_000

-- `time.Duration(expiresIn-refreshOffset) * time.Second`: an int64, as its 64 bits.
unfoldable pub duration_bits : ℤ → ℤ → ℕ
duration_bits expires_in refresh_offset =
    ((pos_part expires_in + neg_part refresh_offset) * second
      + (2 ^ 64 - (neg_part expires_in + pos_part refresh_offset) * second % 2 ^ 64))
    % 2 ^ 64

-- `receivedAt.Add(d).Before(now)`
unfoldable pub is_before : ℕ → ℕ → ℕ → Bool
is_before received_at bits now =
    if ltb bits (2 ^ 63)
    then ltb (received_at + bits) now
    else ltb received_at (now + (2 ^ 64 - bits))

unfoldable pub need_new_token : ℕ → TokenCredentials → Bool
need_new_token now c =
    if c.token.access_token == []
    then true
    else is_before c.token.received_at (duration_bits c.token.expires_in c.refresh_offset) now

-- What comes of the request: it cannot be made or sent, its body cannot be read, or its status with the
-- token that the body is parsed to (the access token and when it expires).
pub data HttpResult : Type 0 where
  no_request failed_request unreadable_body : HttpResult
  responded : (status_code : ℕ) → Option (Text × ℤ) → HttpResult

pub data TokenError : Type 0 where
  request_error status_error parse_error : TokenError

-- The clock is read again when the token is stored.
unfoldable pub receive_access_token :
    HttpResult → ℕ → TokenCredentials → TokenCredentials × Option TokenError
receive_access_token (responded status_code body) now c =
    if status_code == 200
    then elim body [
      | none ↦ (c, some parse_error)
      | some (access_token, expires_in) ↦ (
        record c {
          token = record {
            access_token = access_token;
            expires_in = expires_in;
            received_at = now;
          };
        },
        none,
      )
    ]
    else (c, some status_error)
receive_access_token _ now c = (c, some request_error)

abbrev pub bearer : Token → Text
bearer t = codes "Bearer " ++ t.access_token

-- The value of the header Authorization; an error is `none`.
unfoldable pub get_request_metadata :
    ℕ → HttpResult → ℕ → TokenCredentials → TokenCredentials × Option Text
get_request_metadata now result later c =
    let (c', err) = receive_access_token result later c in
    if need_new_token now c
    then elim err [ some e ↦ (c', none) | none ↦ (c', some (bearer c'.token)) ]
    else (c, some (bearer c.token))

unfoldable pub require_transport_security : TokenCredentials → Bool
require_transport_security c = not c.insecure_tls

-- configuration.Auth, as far as the connection reads it.
pub record Auth : Type 0 where
  pub required : Bool
  pub refresh_offset : ℤ
  pub insecure_tls : Bool

-- The options of `grpc.Dial`.
pub data Transport : Type 0 where
  insecure tls : Transport

pub record DialOptions : Type 0 where
  pub transport : Transport
  pub per_rpc_credentials : Option TokenCredentials

-- Without the system's pool of certificates there is no connection that requires credentials.
unfoldable pub dial_options : (has_cert_pool : Bool) → Auth → Option DialOptions
dial_options has_cert_pool auth =
    if not auth.required
    then some (record { transport = insecure; per_rpc_credentials = none })
    else if not has_cert_pool
    then none
    else some (record {
      transport = if auth.insecure_tls then insecure else tls;
      per_rpc_credentials = some (record {
        refresh_offset = auth.refresh_offset;
        insecure_tls = auth.insecure_tls;
        token = no_token;
      });
    })

-- A round of NotifyShutdown: whether the connection fails, and whether it changes its state in time.
unfoldable pub notify_shutdown : List (Bool × Bool) → Bool
notify_shutdown [] = false
notify_shutdown ((transient_failure, changes) ∷ rounds) =
    let rest = notify_shutdown rounds in if transient_failure && not changes then true else rest

-- dbconn/plugins: an error of the database, with whether it is driver.ErrBadConn.
unfoldable pub has_suffix : Text → Text → Bool
unfolding has_prefix
has_suffix s t = has_prefix (reverse s) (reverse t)

unfoldable pub default_connection_checker : List (Text × Bool) → Bool
default_connection_checker errors =
    any
      (λ (e : Text × Bool).
        e.1
        || has_suffix e.0 (codes "connection refused")
        || has_suffix e.0 (codes "invalid connection"))
      errors

-- Whether the program is told to stop.
unfoldable pub shutdown_callback : List (Text × Bool) → Bool → Bool
shutdown_callback errors connected = default_connection_checker errors && not connected
