-- ===== src/Auth/Login/Honest.antt =====
-- A login of a user who knows the password, auth.service.ts.
use zevra_server.Prelude.{
  ℕ, ◌+◌, ◌%◌, String, true, false, List, ◌++◌, Option, some, ◌≡◌, refl, ◌∙◌, ap, sym, subst, ◌==◌,
  leb,
}
use zevra_server.Js.{codes, all}
use zevra_server.Schema.{User}
use zevra_server.Redis.Session.{Client}
use zevra_server.Store.{Backend, World, select_one}
use zevra_server.Store.Laws.{find-holds}
use zevra_server.Errors.Thrown.{Result, ok}
use zevra_server.Auth.Srp.{
  ProofParams, ProofResult, mod_pow, group_g, group_n, compute_verifier, generate_server_ephemeral,
  to_hex, from_hex, bigint_to_buffer, parse_hex, parse_client_ephemeral, verify_client_proof,
  expected_m1, session_key,
}
use zevra_server.Auth.Srp.Secret.{client_secret, server_secret-client_secret}
use zevra_server.Auth.Srp.Proof.{
  IsDigest, honest_params, verify_client_proof-honest, verify_client_proof-accepts,
  parse_client_ephemeral-nonzero,
}
use zevra_server.Auth.Srp.HexText.{bigint_to_hex, is_plain, parse_hex-bigint_to_hex}
use zevra_server.Auth.SrpState.{SrpState, set_state, consume}
use zevra_server.Auth.SrpState.RoundTrip.{answering, consume-set_state}
use zevra_server.Auth.Tokens.{Primitives, issue_tokens}
use zevra_server.Auth.Login.{
  Hashes, LoginStarted, LoginParams, LoggedIn, Fresh, keys_of, credentials, started, login_start,
  logged_in, proved, with_user, user_of_state, with_ephemeral, consumed, login_finish,
}

-- What a client computes from the value B of the server, its secret `a` and the password hash `x`.
module _ (h : Hashes) (x a : ℕ) (salt : List ℕ) where
  abbrev pub client_key : ℕ → List ℕ
  client_key big_b = session_key h.sha256 (client_secret h.sha256 x a big_b)

  abbrev pub client_m1 : ℕ → List ℕ
  client_m1 big_b =
      to_hex (expected_m1 h.sha256 (mod_pow group_g a group_n) big_b salt (client_key big_b))

  -- The proof of the server that the client expects.
  abbrev pub client_m2 : ℕ → List ℕ
  client_m2 big_b = to_hex (
      h.sha256 (
        bigint_to_buffer (mod_pow group_g a group_n)
        ++ (from_hex (client_m1 big_b) ++ client_key big_b)))

module _ (b : Backend) (p : Primitives) (h : Hashes) (w : World b) (s : b.redis.State) where
  abbrev pub online : World b
  online = record w { client = answering b.redis s }

  abbrev pub signed_in : User → Fresh → List ℕ → LoggedIn
  signed_in u fresh m2 = record {
    id = u.id;
    username = u.username;
    email = u.email;
    tokens = record {
      access_token = p.sign u.id fresh.tokens.expires_in;
      refresh_token = fresh.tokens.token;
      expires_in = fresh.tokens.expires_in;
    };
    keys = keys_of u;
    m2 = m2;
  }

  module _ (username : String) (user : User) (x a secret now : ℕ)
      (found : select_one b.users (λ u. u.username == username) w.users ≡ some user)
      (same : select_one b.users (λ u. u.id == user.id) w.users ≡ some user)
      (active : user.is_active ≡ true) (full : (user.id == "") ≡ false)
      (plain : all is_plain (codes user.id) ≡ true)
      (verifier : parse_hex (codes user.srp_verifier) ≡ compute_verifier x)
      (digest : IsDigest h.sha256) where
    username-same : (user.username == username) ≡ true
    username-same =
        find-holds (λ (u : User). u.username == username) (b.users.rows w.users) user found

    abbrev server_b : ℕ
    server_b = (generate_server_ephemeral h.sha256 (compute_verifier x) secret).big_b

    abbrev state : SrpState
    state = record { b = secret; big_b = server_b; user_id = some user.id }

    abbrev reply : LoginStarted
    reply = record {
      username = username;
      srp_salt = codes user.srp_salt;
      big_b = bigint_to_hex server_b;
    }

    login_start-as : login_start b h online username secret now ≡ (
      record w { client = (set_state b.redis (answering b.redis s) username state now).0 },
      ok reply,
    )
    unfolding login_start credentials started set_state generate_server_ephemeral
    login_start-as = rw found (rw active (rw verifier refl))

    -- What the request that ends the login does with the state.
    consumed-as :
        (params : LoginParams) (fresh : Fresh) (y : Client b.redis × Result (Option SrpState))
        → y.1 ≡ ok (some state)
        → consumed b p h w params fresh y
          ≡ with_ephemeral b p h
              (record w { client = y.0 })
              state
              params
              fresh
              (parse_client_ephemeral params.a)
    unfolding consumed
    consumed-as params fresh (c, o) e = ap (λ z. consumed b p h w params fresh (c, z)) e

    abbrev params_of : List ℕ → Option String → ℕ → LoginParams
    params_of a_text ip big_b = record {
      username = username;
      a = a_text;
      m1 = client_m1 h x a (codes user.srp_salt) big_b;
      ip = ip;
    }

    abbrev proof : ProofParams
    proof = honest_params h.sha256 x a secret (codes user.srp_salt) (codes user.username)

    abbrev seen : ℕ → ProofParams
    seen v = record {
      big_a = mod_pow group_g a group_n;
      m1 = client_m1 h x a (codes user.srp_salt) server_b;
      b = secret;
      big_b = server_b;
      v = v;
      srp_salt = codes user.srp_salt;
      username = codes user.username;
    }

    -- The proof is accepted, and answered as the client expects.
    answered :
        (mod_pow group_g a group_n % group_n ≡ 0 → ⊥)
        → verify_client_proof h.sha256 (seen (parse_hex (codes user.srp_verifier))) ≡ record {
          valid = true;
          m2 = client_m2 h x a (codes user.srp_salt) server_b;
          k = client_key h x a (codes user.srp_salt) server_b;
        }
    unfolding honest_params generate_server_ephemeral
    answered nonzero =
        ap (λ v. verify_client_proof h.sha256 (seen v)) verifier
        ∙ verify_client_proof-accepts h.sha256 proof (
            verify_client_proof-honest h.sha256 x a secret (codes user.srp_salt)
              (codes user.username) digest nonzero)
        ∙ ap (λ (k : ℕ). keyed (session_key h.sha256 k))
            (server_secret-client_secret h.sha256 x a secret)
      where
        keyed : List ℕ → ProofResult
        keyed k = record {
          valid = true;
          m2 = to_hex (
              h.sha256 (
                bigint_to_buffer (mod_pow group_g a group_n)
                ++ (from_hex (client_m1 h x a (codes user.srp_salt) server_b) ++ k)));
          k = k;
        }

    with_user-honest :
        (c : Client b.redis) (a_text : List ℕ) (ip : Option String) (fresh : Fresh)
        → (mod_pow group_g a group_n % group_n ≡ 0 → ⊥)
        → (with_user b p h
            (record w { client = c })
            state
            (params_of a_text ip server_b)
            (mod_pow group_g a group_n)
            fresh
            (some user)).1
          ≡ ok (signed_in user fresh (client_m2 h x a (codes user.srp_salt) server_b))
    unfolding with_user proved logged_in issue_tokens
    with_user-honest c a_text ip fresh nonzero =
        rw active (rw username-same (rw (answered nonzero) refl))

    finish-honest :
        (a_text : List ℕ) (ip : Option String) (fresh : Fresh)
        → parse_client_ephemeral a_text ≡ some (mod_pow group_g a group_n)
        → leb (now + 120000) fresh.tokens.now ≡ false
        → (login_finish b p h
            (login_start b h online username secret now).0
            (params_of a_text ip server_b)
            fresh).1
          ≡ ok (signed_in user fresh (client_m2 h x a (codes user.srp_salt) server_b))
    unfolding login_finish with_ephemeral user_of_state
    finish-honest a_text ip fresh parsed early =
        ap
          (λ (y : World b × Result LoginStarted).
            (login_finish b p h y.0 (params_of a_text ip server_b) fresh).1)
          login_start-as
        ∙ ap (λ (y : World b × Result LoggedIn). y.1)
            (consumed-as (params_of a_text ip server_b) fresh
              (consume b.redis (set_state b.redis (answering b.redis s) username state now).0
                username fresh.tokens.now)
              (consume-set_state b.redis username now fresh.tokens.now s state plain early))
        ∙ rw (parsed, with_ephemeral)
            (rw user_same (
              with_user-honest _ a_text ip fresh
                (parse_client_ephemeral-nonzero a_text (mod_pow group_g a group_n) parsed)))
      where
        user_same : user_of_state b p h w (some user.id) ≡ some user
        user_same = rw full same

  -- The user of the name is active, and the verifier is that of the password hash.
  abbrev pub IsUser : String → User → ℕ → Type 0
  IsUser username user x =
      (select_one b.users (λ u. u.username == username) w.users ≡ some user)
      × (select_one b.users (λ u. u.id == user.id) w.users ≡ some user)
      × (user.is_active ≡ true)
      × ((user.id == "") ≡ false)
      × (all is_plain (codes user.id) ≡ true)
      × (parse_hex (codes user.srp_verifier) ≡ compute_verifier x)

  -- The client goes on from the reply, and is signed in with the proof that it expects.
  abbrev pub SignsIn :
      String
      → User
      → ℕ
      → ℕ
      → List ℕ
      → Option String
      → Fresh
      → World b × Result LoginStarted
      → Type 0
  SignsIn username user x a a_text ip fresh (v, result) =
      (reply : LoginStarted) × (result ≡ ok reply)
      × (let big_b = parse_hex reply.big_b in
          (login_finish b p h v
            (record {
              username = username;
              a = a_text;
              m1 = client_m1 h x a reply.srp_salt big_b;
              ip = ip;
            })
            fresh).1
          ≡ ok (signed_in user fresh (client_m2 h x a reply.srp_salt big_b)))

  -- While Redis answers, a client that knows the password hash behind an active user's verifier
  -- signs in: login/start replies with a salt and B, and login/finish within 120 s, with the
  -- client's A and the M1 computed from that reply by SRP-6a, returns the user, the tokens, the
  -- keys and the M2 that the client expects. A is read as a number that is no multiple of N, the
  -- user's id is found, is not empty and needs no escape in JSON, and SHA-256 is any function with
  -- 32-byte results.
  pub login-SignsIn :
      (username : String) (user : User) (x a secret now : ℕ) (a_text : List ℕ) (ip : Option String)
      (fresh : Fresh)
      → IsDigest h.sha256
      → IsUser username user x
      → parse_client_ephemeral a_text ≡ some (mod_pow group_g a group_n)
      → leb (now + 120000) fresh.tokens.now ≡ false
      → SignsIn username user x a a_text ip fresh (login_start b h online username secret now)
  login-SignsIn username user x a secret now a_text ip fresh digest
        (found, same, active, full, plain, verifier) parsed early =
      let answer =
        reply username user x a secret now found same active full plain verifier digest in
      let sent =
        server_b username user x a secret now found same active full plain verifier digest in
      (
        answer,
        ap (λ (y : World b × Result LoginStarted). y.1)
            (login_start-as username user x a secret now found same active full plain verifier
              digest),
        subst
            (λ (big_b : ℕ).
              (login_finish b p h (login_start b h online username secret now).0
                (record {
                  username = username;
                  a = a_text;
                  m1 = client_m1 h x a (codes user.srp_salt) big_b;
                  ip = ip;
                })
                fresh).1
              ≡ ok (signed_in user fresh (client_m2 h x a (codes user.srp_salt) big_b)))
            (sym (parse_hex-bigint_to_hex sent))
            (finish-honest username user x a secret now found same active full plain verifier digest
              a_text ip fresh parsed early),
      )
