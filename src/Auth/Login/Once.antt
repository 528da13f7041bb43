-- ===== src/Auth/Login/Once.antt =====
-- The state of a login serves one attempt, auth.service.ts and srp-state.service.ts.
use zevra_server.Prelude.{
  ℕ, String, not, ◌||◌, Option, none, some, ◌≡◌, refl, ◌∙◌, ap, sym, subst, arith, ◌==◌, Bool-cases,
  inl, inr,
}
use zevra_server.Js.{codes}
use zevra_server.Schema.{User}
use zevra_server.Redis.{Link, up, down, failing, presence_key, presence_seconds}
use zevra_server.Redis.Values.{set_ex, text, del, effect, live}
use zevra_server.Redis.Laws.{entry-run_self, entry-run_other}
use zevra_server.Redis.Session.{Client, text_of, set_online, when_up}
use zevra_server.Store.{Backend, World}
use zevra_server.Errors.Thrown.{Result, ok, thrown}
use zevra_server.Auth.Srp.{ProofResult, parse_client_ephemeral, verify_client_proof, parse_hex}
use zevra_server.Auth.SrpState.{SrpState, srp_key, consume}
use zevra_server.Auth.SrpState.RoundTrip.{answering}
use zevra_server.Auth.Tokens.{Primitives, issue_tokens}
use zevra_server.Auth.Login.{
  Hashes, LoginParams, Fresh, logged_in, proved, with_user, user_of_state, with_ephemeral, consumed,
  login_finish, session_expired,
}

module _ (b : Backend) (p : Primitives) (h : Hashes) (username : String) where
  -- Redis answers, and holds no state of a login of the user.
  abbrev Spent : Client b.redis → Type 0
  Spent c = (c.link ≡ up) × (b.redis.entry c.store (srp_key username) ≡ none)

  set_online-Spent :
      (c : Client b.redis) (id : String) (now : ℕ) → Spent c → Spent (set_online b.redis c id now)
  unfolding set_online when_up
  set_online-Spent c id now (e, gone) = at_link c.link c.store e gone
    where
      at_link :
          (l : Link) (s : b.redis.State)
          → l ≡ up
          → b.redis.entry s (srp_key username) ≡ none
          → Spent (set_online b.redis (record { link = l; store = s }) id now)
      at_link up s e gone = (
        e,
        entry-run_other b.redis now (presence_key id) (set_ex presence_seconds (text "online")) s
              (srp_key username) refl
            ∙ gone,
      )
      at_link down s e gone = (e, gone)
      at_link failing s e gone = (e, gone)

  proved-Spent :
      (w : World b) (u : User) (params : LoginParams) (fresh : Fresh) (result : ProofResult)
      → Spent w.client
      → Spent (proved b p h w u params fresh result).0.client
  unfolding proved logged_in issue_tokens
  proved-Spent w u params fresh result m = elim (Bool-cases result.valid) [
    | inl e ↦ rw e (set_online-Spent w.client u.id fresh.tokens.now m)
    | inr e ↦ rw e m
  ]

  with_user-Spent :
      (w : World b) (state : SrpState) (params : LoginParams) (big_a : ℕ) (fresh : Fresh)
      (o : Option User)
      → Spent w.client
      → Spent (with_user b p h w state params big_a fresh o).0.client
  unfolding with_user
  with_user-Spent w state params big_a fresh none m = m
  with_user-Spent w state params big_a fresh (some u) m =
      elim (Bool-cases (not u.is_active || not (u.username == params.username))) [
        | inl e ↦ rw e m
        | inr e ↦ rw e (
            proved-Spent w u params fresh
              (verify_client_proof h.sha256 (record {
                big_a = big_a;
                m1 = params.m1;
                b = state.b;
                big_b = state.big_b;
                v = parse_hex (codes u.srp_verifier);
                srp_salt = codes u.srp_salt;
                username = codes u.username;
              }))
              m)
      ]

  with_ephemeral-Spent :
      (w : World b) (state : SrpState) (params : LoginParams) (fresh : Fresh) (o : Option ℕ)
      → Spent w.client
      → Spent (with_ephemeral b p h w state params fresh o).0.client
  unfolding with_ephemeral
  with_ephemeral-Spent w state params fresh none m = m
  with_ephemeral-Spent w state params fresh (some big_a) m =
      with_user-Spent w state params big_a fresh (user_of_state b p h w state.user_id) m

  consumed-Spent :
      (w : World b) (params : LoginParams) (fresh : Fresh)
      (x : Client b.redis × Result (Option SrpState))
      → Spent x.0
      → Spent (consumed b p h w params fresh x).0.client
  unfolding consumed
  consumed-Spent w params fresh (c, thrown e) m = m
  consumed-Spent w params fresh (c, ok none) m = m
  consumed-Spent w params fresh (c, ok (some state)) m =
      with_ephemeral-Spent (record w { client = c }) state params fresh
        (parse_client_ephemeral params.a) m

  consume-Spent :
      (s : b.redis.State) (now : ℕ) → Spent (consume b.redis (answering b.redis s) username now).0
  unfolding consume effect
  consume-Spent s now = (refl, entry-run_self b.redis now (srp_key username) del s)

  consume-gone :
      (l : Link) (s : b.redis.State) (now : ℕ)
      → l ≡ up
      → b.redis.entry s (srp_key username) ≡ none
      → (consume b.redis (record { link = l; store = s }) username now).1 ≡ ok none
  unfolding consume live text_of
  consume-gone up s now e gone = rw gone refl
  consume-gone down s now e gone = absurd (ground arith)
  consume-gone failing s now e gone = absurd (ground arith)

  consumed-none :
      (w : World b) (params : LoginParams) (fresh : Fresh)
      (x : Client b.redis × Result (Option SrpState))
      → x.1 ≡ ok none
      → (consumed b p h w params fresh x).1 ≡ thrown session_expired
  unfolding consumed
  consumed-none w params fresh (c, o) e = ap (λ z. (consumed b p h w params fresh (c, z)).1) e

  Spent-expired :
      (w : World b) (params : LoginParams) (fresh : Fresh)
      → params.username ≡ username
      → Spent w.client
      → (login_finish b p h w params fresh).1 ≡ thrown session_expired
  unfolding login_finish
  Spent-expired w params fresh e (link, gone) =
      consumed-none w params fresh (consume b.redis w.client params.username fresh.tokens.now) (
        ap (λ n. (consume b.redis w.client n fresh.tokens.now).1) e
        ∙ consume-gone w.client.link w.client.store fresh.tokens.now link gone)

  -- After login/finish for a username while Redis answers, whatever its parameters and outcome, a
  -- second login/finish for the username is answered that the login session expired, at any time,
  -- if no login is started in between.
  pub login_finish-once :
      (w : World b) (s : b.redis.State) (params again : LoginParams) (fresh later : Fresh)
      → params.username ≡ username
      → again.username ≡ username
      → (login_finish b p h
          (login_finish b p h (record w { client = answering b.redis s }) params fresh).0
          again
          later).1
        ≡ thrown session_expired
  unfolding login_finish
  login_finish-once w s params again fresh later e f =
      Spent-expired (login_finish b p h (record w { client = answering b.redis s }) params fresh).0
        again later f
        (consumed-Spent (record w { client = answering b.redis s }) params fresh
          (consume b.redis (answering b.redis s) params.username fresh.tokens.now)
          (subst (λ n. Spent (consume b.redis (answering b.redis s) n fresh.tokens.now).0) (sym e)
            (consume-Spent s fresh.tokens.now)))
