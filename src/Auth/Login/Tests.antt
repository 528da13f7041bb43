-- ===== src/Auth/Login/Tests.antt =====
-- A login of a user, on a small store.
use zevra_server.Prelude.{◌≡◌, refl, true, [], ◌∷◌, none, some, find}
use zevra_server.Js.{codes, null, all}
use zevra_server.Schema.{User}
use zevra_server.Store.{World}
use zevra_server.Store.Concrete.{list_backend, empty_world, memory_redis}
use zevra_server.Errors.Thrown.{thrown}
use zevra_server.Auth.Srp.Samples.{thirty_two, is_digest, sample_verifier, sample_a}
use zevra_server.Auth.SrpState.{set_state}
use zevra_server.Auth.SrpState.RoundTrip.{answering}
use zevra_server.Auth.Tokens.{Primitives}
use zevra_server.Auth.Login.{Hashes, LoginParams, Fresh, login_start, login_finish, session_expired}
use zevra_server.Auth.Login.Honest.{SignsIn, IsUser, login-SignsIn}
use zevra_server.Auth.Login.Once.{login_finish-once}

abbrev ann : User
ann = record {
  id = "ann";
  username = "ann";
  email = "a";
  srp_salt = "a0";
  srp_verifier = "1000";
  argon2_params = null;
  public_key = "p";
  encrypted_private_key = "e";
  key_salt = "k";
  public_key_sign = "p";
  encrypted_private_key_sign = "e";
  key_salt_sign = "k";
  key_version = 1;
  status = "OFFLINE";
  is_active = true;
  created_at = 1;
  updated_at = 1;
  last_login_at = none;
}

abbrev registered : World list_backend
registered = record empty_world { users = ann ∷ [] }

abbrev primitives : Primitives
primitives = record { hash_refresh_token = λ t. t; sign = λ u n. u }

abbrev hashes : Hashes
hashes = record { sha256 = thirty_two; hmac = λ text. [] }

abbrev fresh : Fresh
fresh = record {
  tokens = record { token = "new"; id = "t2"; expires_in = 900; now = 50 };
  audit_id = "l1";
  logs = true;
}

ann-IsUser : IsUser list_backend primitives hashes registered (λ k. none) "ann" ann 12
unfolding find all
ann-IsUser = (refl, refl, refl, refl, refl, sample_verifier)

login-SignsIn_example :
    SignsIn list_backend primitives hashes registered
      (λ k. none)
      "ann"
      ann
      12
      56
      (codes "100000000000000")
      none
      fresh
      (login_start list_backend hashes registered "ann" 34 10)
login-SignsIn_example =
    login-SignsIn list_backend primitives hashes registered (λ k. none) "ann" ann 12 56 34 10
      (codes "100000000000000") none fresh is_digest ann-IsUser sample_a refl

abbrev wrong : LoginParams
wrong = record { username = "ann"; a = codes "abc"; m1 = codes "00"; ip = none }

abbrev waiting : memory_redis.State
waiting =
    (set_state memory_redis (answering memory_redis (λ k. none)) "ann"
      (record { b = 34; big_b = 5; user_id = some "ann" }) 10).0.store

login_finish-once_example :
    (login_finish list_backend primitives hashes
      (login_finish list_backend primitives hashes
        (record registered { client = answering memory_redis waiting })
        wrong
        fresh).0
      wrong
      fresh).1
    ≡ thrown session_expired
login_finish-once_example =
    login_finish-once list_backend primitives hashes "ann" registered waiting wrong wrong fresh
      fresh refl refl
