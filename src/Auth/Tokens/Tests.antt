-- ===== src/Auth/Tokens/Tests.antt =====
-- One token, redeemed and revoked.
use zevra_server.Prelude.{◌≡◌, refl, true, false, not, [], ◌∷◌, none, ◌==◌, any, keep, find}
use zevra_server.Js.{null}
use zevra_server.Schema.{User}
use zevra_server.Store.{World}
use zevra_server.Store.Concrete.{list_backend, empty_world}
use zevra_server.Errors.Thrown.{Thrown, ok, thrown}
use zevra_server.Auth.Tokens.{
  Primitives, Fresh, Tokens, refresh_tokens, refresh_found, refresh_user, issued, issue_tokens,
  logout,
}
use zevra_server.Auth.Runs.{Reaches, here, next, refresh, logging_out, refresh_tokens-once}
use zevra_server.Auth.Login.{Hashes}
use zevra_server.Auth.Tokens.Redemption.{IsRedeemable, refresh_tokens-Sound, logout-Revokes}

abbrev primitives : Primitives
primitives = record { hash_refresh_token = λ t. t; sign = λ u n. u }

abbrev hashes : Hashes
hashes = record { sha256 = λ m. m; hmac = λ m. [] }

abbrev ann : User
ann = record {
  id = "ann";
  username = "ann";
  email = "a";
  srp_salt = "s";
  srp_verifier = "v";
  argon2_params = null;
  public_key = "p";
  encrypted_private_key = "e";
  key_salt = "k";
  public_key_sign = "p";
  encrypted_private_key_sign = "e";
  key_salt_sign = "k";
  key_version = 1;
  status = "OFFLINE";
  is_active = true;
  created_at = 1;
  updated_at = 1;
  last_login_at = none;
}

abbrev signed_in : World list_backend
signed_in = record empty_world {
  users = ann ∷ [];
  refresh_tokens =
      record { id = "t1"; token_hash = "old"; expires_at = 100; created_at = 1; user_id = "ann" }
      ∷ [];
}

abbrev fresh : Fresh
fresh = record { token = "new"; id = "t2"; expires_in = 900; now = 50 }

abbrev granted : Tokens
granted = record { access_token = "ann"; refresh_token = "new"; expires_in = 900 }

redeemed : (refresh_tokens list_backend primitives signed_in "old" fresh).1 ≡ ok granted
unfolding refresh_tokens refresh_found refresh_user issued issue_tokens find
redeemed = refl

abbrev second_fresh : Fresh
second_fresh = record { token = "newer"; id = "t3"; expires_in = 900; now = 60 }

abbrev after_redemption : World list_backend
after_redemption = (refresh_tokens list_backend primitives signed_in "old" fresh).0

abbrev after_second : World list_backend
after_second = (refresh_tokens list_backend primitives after_redemption "new" second_fresh).0

abbrev after_logout : World list_backend
after_logout = logout list_backend primitives after_second "ann" true "a1" 70

later_calls : Reaches list_backend primitives hashes "old" after_redemption after_logout
later_calls =
    next (next here (refresh "new" second_fresh refl refl)) (logging_out "ann" true "a1" 70 refl)

refresh_tokens-once_example :
    (e : Thrown) × ((refresh_tokens list_backend primitives after_logout "old" fresh).1 ≡ thrown e)
refresh_tokens-once_example =
    refresh_tokens-once list_backend primitives hashes "old" signed_in after_logout fresh fresh refl
      later_calls

refresh_tokens-Sound_example : IsRedeemable list_backend primitives signed_in "old" fresh
refresh_tokens-Sound_example =
    refresh_tokens-Sound list_backend primitives signed_in "old" fresh granted redeemed

logout-Revokes_example :
    let v = logout list_backend primitives signed_in "ann" true "a1" 60 in
    (any (λ t. t.user_id == "ann") v.refresh_tokens ≡ false)
    × (keep (λ t. not (t.user_id == "ann")) v.refresh_tokens
        ≡ keep (λ t. not (t.user_id == "ann")) signed_in.refresh_tokens)
logout-Revokes_example = logout-Revokes list_backend primitives signed_in "ann" true "a1" 60
