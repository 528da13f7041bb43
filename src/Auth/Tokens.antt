-- ===== src/Auth/Tokens.antt =====
-- src/modules/auth/auth.service.ts: refresh tokens, the profile and logout. The hash of a token
-- (SHA-256), the signing of access tokens and the random tokens are arguments.
pub mod Redemption
mod Tests
use zevra_server.Prelude.{
  ℕ, ◌+◌, ◌*◌, String, Bool, true, false, not, ◌&&◌, ◌||◌, List, [], ◌∷◌, Option, none, some, ◌==◌,
  ltb, if◌then◌else◌,
}
use zevra_server.Js.{JsValue, null}
use zevra_server.Schema.{User, RefreshToken, AuditLog}
use zevra_server.Redis.Session.{set_offline}
use zevra_server.Store.{Table, Backend, World, select, select_one}
use zevra_server.Errors.Thrown.{Thrown, Result, ok, thrown, unauthorized}

abbrev pub refresh_token_ttl_ms : ℕ
refresh_token_ttl_ms = 7 * 24 * 60 * 60 * 1000

pub record Tokens : Type 0 where
  pub access_token : String
  pub refresh_token : String
  pub expires_in : ℕ

-- What one call gets from outside: the random refresh token, the id of its row, the time to live of
-- an access token, and the time.
pub record Fresh : Type 0 where
  pub token : String
  pub id : String
  pub expires_in : ℕ
  pub now : ℕ

pub record Primitives : Type 0 where
  pub hash_refresh_token : String → String
  pub sign : String → ℕ → String

module _ (b : Backend) (p : Primitives) where
  pub new_row : String → Fresh → RefreshToken
  new_row user_id fresh = record {
    id = fresh.id;
    token_hash = p.hash_refresh_token fresh.token;
    expires_at = fresh.now + refresh_token_ttl_ms;
    created_at = fresh.now;
    user_id = user_id;
  }

  unfoldable pub issue_tokens : World b → String → Fresh → World b × Tokens
  issue_tokens w user_id fresh = (
    record w {
      refresh_tokens = b.refresh_tokens.insert (new_row user_id fresh) (
          b.refresh_tokens.delete (λ t. t.user_id == user_id && ltb t.expires_at fresh.now)
            w.refresh_tokens);
    },
    record {
      access_token = p.sign user_id fresh.expires_in;
      refresh_token = fresh.token;
      expires_in = fresh.expires_in;
    },
  )

  issued : World b × Tokens → World b × Result Tokens
  issued (w, t) = (w, ok t)

  refuse_user : World b → String → World b × Result Tokens
  refuse_user w user_id = (
    record w {
      refresh_tokens = b.refresh_tokens.delete (λ t. t.user_id == user_id) w.refresh_tokens;
    },
    thrown (unauthorized "Invalid or expired refresh token"),
  )

  refresh_user : World b → String → Fresh → Option User → World b × Result Tokens
  unfolding issued refuse_user
  refresh_user w user_id fresh none = refuse_user w user_id
  refresh_user w user_id fresh (some user) =
      if not user.is_active then refuse_user w user_id else issued (issue_tokens w user_id fresh)

  refresh_found : World b → Fresh → Option RefreshToken → World b × Result Tokens
  refresh_found w fresh none = (w, thrown (unauthorized "Invalid or expired refresh token"))
  refresh_found w fresh (some found) =
      if ltb found.expires_at fresh.now
      then (w, thrown (unauthorized "Invalid or expired refresh token"))
      else refresh_user w found.user_id fresh
          (select_one b.users (λ u. u.id == found.user_id) w.users)

  abbrev pub has_hash : String → RefreshToken → Bool
  has_hash token t = t.token_hash == p.hash_refresh_token token

  -- The deletion returns the rows that it takes.
  pub refresh_tokens : World b → String → Fresh → World b × Result Tokens
  refresh_tokens w token fresh =
      refresh_found
        (record w { refresh_tokens = b.refresh_tokens.delete (has_hash token) w.refresh_tokens })
        fresh (select_one b.refresh_tokens (has_hash token) w.refresh_tokens)

  -- The insertion of an audit entry; `logs` tells whether it succeeds, and a failure is only logged.
  unfoldable pub audit : Bool → AuditLog → b.audit_log.State → b.audit_log.State
  audit false entry log = log
  audit true entry log = b.audit_log.insert entry log

  pub logout : World b → String → Bool → String → ℕ → World b
  unfolding audit
  logout w user_id logs audit_id now = record w {
    audit_log =
        audit logs
          (record {
            id = audit_id;
            action = "LOGOUT";
            details = null;
            ip_address = none;
            user_id = some user_id;
            created_at = now;
          })
          w.audit_log;
    users = b.users.update (λ u. u.id == user_id) (λ u. record u { status = "OFFLINE" }) w.users;
    refresh_tokens = b.refresh_tokens.delete (λ t. t.user_id == user_id) w.refresh_tokens;
    client = set_offline b.redis w.client user_id now;
  }
