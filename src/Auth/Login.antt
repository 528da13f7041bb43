-- ===== src/Auth/Login.antt =====
-- src/modules/auth/auth.service.ts: the two requests of a login. SHA-256 and HMAC under the secret of
-- the server are Node's, as are the random bytes; a text of hexadecimal digits is a list of code points.
pub mod Honest
pub mod Once
pub mod Revoked
mod Tests
use Prim.Native.String.{◌++◌}
use zevra_server.Prelude.{
  ℕ, String, Bool, true, false, not, ◌&&◌, ◌||◌, List, Option, none, some, ◌==◌, if◌then◌else◌,
}
use zevra_server.Js.{JsValue, null, object, field, string, end, codes}
use zevra_server.Schema.{User, AuditLog}
use zevra_server.Redis.Values.{take}
use zevra_server.Redis.Session.{Client, set_online}
use zevra_server.Store.{Backend, World, select_one}
use zevra_server.Errors.Thrown.{Thrown, Result, ok, thrown, unauthorized}
use zevra_server.Auth.Srp.{
  Ephemeral, ProofParams, ProofResult, compute_verifier, generate_server_ephemeral,
  buffer_to_bigint, to_hex, parse_hex, parse_client_ephemeral, verify_client_proof,
}
use zevra_server.Auth.Srp.HexText.{bigint_to_hex}
use zevra_server.Auth.SrpState.{SrpState, set_state, consume}
use zevra_server.Auth.Tokens.{Tokens, Primitives, issue_tokens, audit}

pub record Hashes : Type 0 where
  pub sha256 : List ℕ → List ℕ
  -- HMAC-SHA-256 of a text under the secret
  pub hmac : String → List ℕ

-- What a login is started with.
pub record Credentials : Type 0 where
  pub srp_salt : List ℕ
  pub verifier : ℕ
  pub user_id : Option String

pub record LoginStarted : Type 0 where
  pub username : String
  pub srp_salt : List ℕ
  pub big_b : List ℕ

pub record LoginParams : Type 0 where
  pub username : String
  pub a : List ℕ
  pub m1 : List ℕ
  pub ip : Option String

pub record UserKeys : Type 0 where
  pub public_key : String
  pub public_key_sign : String
  pub encrypted_private_key : String
  pub key_salt : String
  pub encrypted_private_key_sign : String
  pub key_salt_sign : String
  pub argon2_params : JsValue
  pub key_version : ℕ

pub record LoggedIn : Type 0 where
  pub id : String
  pub username : String
  pub email : String
  pub tokens : Tokens
  pub keys : UserKeys
  pub m2 : List ℕ

-- What the end of a login gets from outside: that of the tokens, the id of its audit entry, and
-- whether the entry is accepted.
pub record Fresh : Type 0 where
  pub tokens : zevra_server.Auth.Tokens.Fresh
  pub audit_id : String
  pub logs : Bool

abbrev pub invalid_credentials : Thrown
invalid_credentials = unauthorized "Invalid username or password"

abbrev pub session_expired : Thrown
session_expired = unauthorized "Login session expired. Please try again."

abbrev pub keys_of : User → UserKeys
keys_of u = record {
  public_key = u.public_key;
  public_key_sign = u.public_key_sign;
  encrypted_private_key = u.encrypted_private_key;
  key_salt = u.key_salt;
  encrypted_private_key_sign = u.encrypted_private_key_sign;
  key_salt_sign = u.key_salt_sign;
  argon2_params = u.argon2_params;
  key_version = u.key_version;
}

abbrev pub decoy_credentials : Hashes → String → Credentials
decoy_credentials h username = record {
  srp_salt = to_hex (take 16 (h.hmac ("zevra-srp-salt:" ++ username)));
  verifier = compute_verifier (buffer_to_bigint (h.hmac ("zevra-srp-x:" ++ username)));
  user_id = none;
}

-- Those of an active user, and else a decoy.
unfoldable pub credentials : Hashes → String → Option User → Credentials
credentials h username none = decoy_credentials h username
credentials h username (some u) =
    if u.is_active
    then record {
      srp_salt = codes u.srp_salt;
      verifier = parse_hex (codes u.srp_verifier);
      user_id = some u.id;
    }
    else decoy_credentials h username

module _ (b : Backend) (h : Hashes) where
  started :
      World b → LoginStarted → Client b.redis × Result (Unit {0}) → World b × Result LoginStarted
  started w reply (c, ok _) = (record w { client = c }, ok reply)
  started w reply (c, thrown e) = (record w { client = c }, thrown e)

  -- `secret` is the 32 random bytes, as a number.
  pub login_start : World b → String → ℕ → ℕ → World b × Result LoginStarted
  unfolding credentials started
  login_start w username secret now =
      let c = credentials h username (select_one b.users (λ u. u.username == username) w.users) in
      let e = generate_server_ephemeral h.sha256 c.verifier secret in
      started w
        (record { username = username; srp_salt = c.srp_salt; big_b = bigint_to_hex e.big_b })
        (set_state b.redis w.client username
          (record { b = e.b; big_b = e.big_b; user_id = c.user_id }) now)

module _ (b : Backend) (p : Primitives) (h : Hashes) where
  abbrev entry : String → JsValue → String → LoginParams → Fresh → AuditLog
  entry action details user_id params fresh = record {
    id = fresh.audit_id;
    action = action;
    details = details;
    ip_address = params.ip;
    user_id = some user_id;
    created_at = fresh.tokens.now;
  }

  logged_in : World b × Tokens → User → List ℕ → LoginParams → Fresh → World b × Result LoggedIn
  logged_in (w, tokens) u m2 params fresh = (
    record w {
      users =
          b.users.update (λ x. x.id == u.id)
            (λ x. record x { last_login_at = some fresh.tokens.now; status = "ONLINE" }) w.users;
      client = set_online b.redis w.client u.id fresh.tokens.now;
      audit_log = audit b p fresh.logs (entry "LOGIN" null u.id params fresh) w.audit_log;
    },
    ok (record {
      id = u.id;
      username = u.username;
      email = u.email;
      tokens = tokens;
      keys = keys_of u;
      m2 = m2;
    }),
  )

  proved : World b → User → LoginParams → Fresh → ProofResult → World b × Result LoggedIn
  unfolding logged_in
  proved w u params fresh result =
      if not result.valid
      then (
        record w {
          audit_log =
              audit b p fresh.logs
                (entry "LOGIN_FAILED" (object (field "reason" (string "Invalid SRP proof") end))
                  u.id params fresh)
                w.audit_log;
        },
        thrown invalid_credentials,
      )
      else logged_in (issue_tokens b p w u.id fresh.tokens) u result.m2 params fresh

  -- The proof against the decoy is computed in the source for its time only.
  with_user : World b → SrpState → LoginParams → ℕ → Fresh → Option User → World b × Result LoggedIn
  unfolding proved
  with_user w state params big_a fresh none = (w, thrown invalid_credentials)
  with_user w state params big_a fresh (some u) =
      if not u.is_active || not (u.username == params.username)
      then (w, thrown invalid_credentials)
      else proved w u params fresh (
          verify_client_proof h.sha256 (record {
            big_a = big_a;
            m1 = params.m1;
            b = state.b;
            big_b = state.big_b;
            v = parse_hex (codes u.srp_verifier);
            srp_salt = codes u.srp_salt;
            username = codes u.username;
          }))

  user_of_state : World b → Option String → Option User
  user_of_state w none = none
  user_of_state w (some id) =
      if id == "" then none else select_one b.users (λ u. u.id == id) w.users

  with_ephemeral : World b → SrpState → LoginParams → Fresh → Option ℕ → World b × Result LoggedIn
  unfolding with_user user_of_state
  with_ephemeral w state params fresh none = (w, thrown invalid_credentials)
  with_ephemeral w state params fresh (some big_a) =
      with_user w state params big_a fresh (user_of_state w state.user_id)

  consumed :
      World b
      → LoginParams
      → Fresh
      → Client b.redis × Result (Option SrpState)
      → World b × Result LoggedIn
  unfolding with_ephemeral
  consumed w params fresh (c, thrown e) = (record w { client = c }, thrown e)
  consumed w params fresh (c, ok none) = (record w { client = c }, thrown session_expired)
  consumed w params fresh (c, ok (some state)) =
      with_ephemeral (record w { client = c }) state params fresh (parse_client_ephemeral params.a)

  pub login_finish : World b → LoginParams → Fresh → World b × Result LoggedIn
  unfolding consumed
  login_finish w params fresh =
      consumed w params fresh (consume b.redis w.client params.username fresh.tokens.now)
