-- ===== src/Auth/Login/Revoked.antt =====
-- The end of a login stores no token but its own, auth.service.ts.
use zevra_server.Prelude.{
  ℕ, ◌≡◌, String, false, not, ◌||◌, Option, none, some, ◌==◌, any, Bool-cases, inl, inr,
}
use zevra_server.Js.{codes}
use zevra_server.Schema.{User}
use zevra_server.Store.{Backend, World}
use zevra_server.Redis.Session.{Client}
use zevra_server.Errors.Thrown.{Result, ok, thrown}
use zevra_server.Auth.Srp.{ProofResult, parse_client_ephemeral, verify_client_proof, parse_hex}
use zevra_server.Auth.SrpState.{SrpState, consume}
use zevra_server.Auth.Tokens.{Primitives, Fresh, has_hash}
use zevra_server.Auth.Tokens.Redemption.{rows, issue_tokens-keeps}
use zevra_server.Auth.Login.{
  Hashes, LoginParams, logged_in, proved, with_user, user_of_state, with_ephemeral, consumed,
  login_finish,
}

-- The new token of a call does not have the hash of `token`.
abbrev pub IsApart : Primitives → String → Fresh → Type 0
IsApart p token fresh = (p.hash_refresh_token fresh.token == p.hash_refresh_token token) ≡ false

module _ (b : Backend) (p : Primitives) (token : String) where
  -- No row has the hash of `token`.
  abbrev pub IsGone : World b → Type 0
  IsGone w = any (has_hash b p token) (rows b p w) ≡ false

module _ (b : Backend) (p : Primitives) (h : Hashes) (token : String) (params : LoginParams)
    (fresh : zevra_server.Auth.Login.Fresh) (n : IsApart p token fresh.tokens) where
  proved-IsGone :
      (w : World b) (u : User) (result : ProofResult)
      → IsGone b p token w
      → IsGone b p token (proved b p h w u params fresh result).0
  unfolding proved logged_in
  proved-IsGone w u result g = elim (Bool-cases result.valid) [
    | inl e ↦ rw e (issue_tokens-keeps b p w token u.id fresh.tokens n g)
    | inr e ↦ rw e g
  ]

  with_user-IsGone :
      (w : World b) (state : SrpState) (big_a : ℕ) (o : Option User)
      → IsGone b p token w
      → IsGone b p token (with_user b p h w state params big_a fresh o).0
  unfolding with_user
  with_user-IsGone w state big_a none g = g
  with_user-IsGone w state big_a (some u) g =
      elim (Bool-cases (not u.is_active || not (u.username == params.username))) [
        | inl e ↦ rw e g
        | inr e ↦ rw e (
            proved-IsGone w u
              (verify_client_proof h.sha256 (record {
                big_a = big_a;
                m1 = params.m1;
                b = state.b;
                big_b = state.big_b;
                v = parse_hex (codes u.srp_verifier);
                srp_salt = codes u.srp_salt;
                username = codes u.username;
              }))
              g)
      ]

  with_ephemeral-IsGone :
      (w : World b) (state : SrpState) (o : Option ℕ)
      → IsGone b p token w
      → IsGone b p token (with_ephemeral b p h w state params fresh o).0
  unfolding with_ephemeral
  with_ephemeral-IsGone w state none g = g
  with_ephemeral-IsGone w state (some big_a) g =
      with_user-IsGone w state big_a (user_of_state b p h w state.user_id) g

  consumed-IsGone :
      (w : World b) (x : Client b.redis × Result (Option SrpState))
      → IsGone b p token w
      → IsGone b p token (consumed b p h w params fresh x).0
  unfolding consumed
  consumed-IsGone w (c, thrown e) g = g
  consumed-IsGone w (c, ok none) g = g
  consumed-IsGone w (c, ok (some state)) g =
      with_ephemeral-IsGone (record w { client = c }) state (parse_client_ephemeral params.a) g

  pub login_finish-IsGone :
      (w : World b) → IsGone b p token w → IsGone b p token (login_finish b p h w params fresh).0
  unfolding login_finish
  login_finish-IsGone w g =
      consumed-IsGone w (consume b.redis w.client params.username fresh.tokens.now) g
