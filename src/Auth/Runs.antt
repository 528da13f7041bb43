-- ===== src/Auth/Runs.antt =====
-- Runs of auth.service.ts: redemptions, ends of logins, logouts, and calls of other services.
use zevra_server.Prelude.{ℕ, ◌≡◌, ◌∙◌, ap, String, Bool, any}
use zevra_server.Store.{Backend, World}
use zevra_server.Errors.Thrown.{Thrown, thrown}
use zevra_server.Auth.Tokens.{Primitives, Fresh, refresh_tokens, has_hash, logout}
use zevra_server.Auth.Tokens.Redemption.{
  rows, refresh_tokens-absent, refresh_tokens-missing, refresh_tokens-keeps, logout-keeps,
}
use zevra_server.Auth.Login.{Hashes, LoginParams, login_finish}
use zevra_server.Auth.Login.Revoked.{IsApart, IsGone, login_finish-IsGone}

module _ (b : Backend) (p : Primitives) (h : Hashes) (token : String) where
  -- One call: a redemption of any token, the end of a login, a logout, or a call that leaves the
  -- refresh tokens as they are. The tokens that it issues are apart from `token`.
  pub data Step (w v : World b) : Type 0 where
    refresh :
        (other : String) (fresh : Fresh)
        → IsApart p token fresh
        → v ≡ (refresh_tokens b p w other fresh).0
        → Step w v
    login :
        (params : LoginParams) (fresh : zevra_server.Auth.Login.Fresh)
        → IsApart p token fresh.tokens
        → v ≡ (login_finish b p h w params fresh).0
        → Step w v
    logging_out :
        (user_id : String) (logs : Bool) (audit_id : String) (now : ℕ)
        → v ≡ logout b p w user_id logs audit_id now
        → Step w v
    elsewhere : v.refresh_tokens ≡ w.refresh_tokens → Step w v

  pub data Reaches (w : World b) : World b → Type 0 where
    here : Reaches w w
    next : {v u : World b} → Reaches w v → Step v u → Reaches w u

  Step-IsGone : (w v : World b) → Step w v → IsGone b p token w → IsGone b p token v
  Step-IsGone w v (refresh other fresh n e) g =
      ap (λ u. any (has_hash b p token) (rows b p u)) e
      ∙ refresh_tokens-keeps b p w token other fresh n g
  Step-IsGone w v (login params fresh n e) g =
      ap (λ u. any (has_hash b p token) (rows b p u)) e
      ∙ login_finish-IsGone b p h token params fresh n w g
  Step-IsGone w v (logging_out user_id logs audit_id now e) g =
      ap (λ u. any (has_hash b p token) (rows b p u)) e
      ∙ logout-keeps b p w user_id logs audit_id now (has_hash b p token) g
  Step-IsGone w v (elsewhere e) g =
      ap (λ t. any (has_hash b p token) (b.refresh_tokens.rows t)) e ∙ g

  Reaches-IsGone : (w v : World b) → Reaches w v → IsGone b p token w → IsGone b p token v
  Reaches-IsGone w _ here g = g
  Reaches-IsGone w _ (next {v} {u} r s) g = Step-IsGone v u s (Reaches-IsGone w v r g)

-- A redemption of a refresh token, accepted or not, is followed by any run of redemptions of any
-- tokens, ends of logins, logouts, and calls that leave the refresh tokens as they are. After it
-- the token is refused, if no token issued by the redemption or in the run has its hash.
pub refresh_tokens-once :
    (b : Backend) (p : Primitives) (h : Hashes) (token : String) (w v : World b)
    (fresh later : Fresh)
    → IsApart p token fresh
    → Reaches b p h token (refresh_tokens b p w token fresh).0 v
    → (e : Thrown) × ((refresh_tokens b p v token later).1 ≡ thrown e)
refresh_tokens-once b p h token w v fresh later n r =
    refresh_tokens-missing b p v token later
      (Reaches-IsGone b p h token _ v r (refresh_tokens-absent b p w token fresh n))
