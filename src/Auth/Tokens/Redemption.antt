-- ===== src/Auth/Tokens/Redemption.antt =====
-- What redemptions and logouts do to the refresh tokens, auth.service.ts.
use zevra_server.Prelude.{
  ℕ, ◌≤◌, ◌≡◌, true≢false, refl, ◌∙◌, sym, String, Bool, true, false, not, ◌&&◌, List, [], ◌∷◌,
  ◌++◌, Option, none, some, arith, keep, any, find, ltb, Bool-cases, inl, inr, ◌==◌,
}
use zevra_server.Schema.{User, RefreshToken}
use zevra_server.Store.{Backend, World}
use zevra_server.Store.Laws.{find-absent, any-keep, keep-none, keep-keep_same}
use zevra_server.Store.Passing.{any-delete}
use zevra_server.Errors.Thrown.{Thrown, ok, thrown, thrown≢ok}
use zevra_server.Auth.Tokens.{
  Primitives, Fresh, Tokens, new_row, issue_tokens, issued, refuse_user, refresh_user,
  refresh_found, refresh_tokens, has_hash, logout,
}

any-false :
    (p : RefreshToken → Bool) (l : List RefreshToken) → (any p l ≡ true → ⊥) → any p l ≡ false
any-false p l h = ground arith

any-snoc :
    (p : RefreshToken → Bool) (l : List RefreshToken) (r : RefreshToken)
    → any p l ≡ false
    → p r ≡ false
    → any p (l ++ r ∷ []) ≡ false
unfolding any
any-snoc p [] r h n = rw n refl
any-snoc p (x ∷ l) r h n = ground (arith, any-snoc p l r)

any-deleted :
    (p q : RefreshToken → Bool) (l : List RefreshToken)
    → any p l ≡ false
    → any p (keep (λ x. not (q x)) l) ≡ false
any-deleted p q l h = any-false p _ (λ e. true≢false (sym (any-delete p q l e) ∙ h))

any-own_deleted :
    (p : RefreshToken → Bool) (l : List RefreshToken) → any p (keep (λ x. not (p x)) l) ≡ false
unfolding any
any-own_deleted p l = any-keep p (keep (λ x. not (p x)) l) ∙ rw (keep-none p l) refl

module _ (b : Backend) (p : Primitives) where
  abbrev pub rows : World b → List RefreshToken
  rows w = b.refresh_tokens.rows w.refresh_tokens

  issue_tokens-absent :
      (q : RefreshToken → Bool) (w : World b) (user_id : String) (fresh : Fresh)
      → any q (rows w) ≡ false
      → q (new_row b p user_id fresh) ≡ false
      → any q (rows (issue_tokens b p w user_id fresh).0) ≡ false
  unfolding issue_tokens
  issue_tokens-absent q w user_id fresh h n =
      rw
        (
          b.refresh_tokens.rows_insert (new_row b p user_id fresh) (
              b.refresh_tokens.delete (λ t. t.user_id == user_id && ltb t.expires_at fresh.now)
                w.refresh_tokens),
          b.refresh_tokens.rows_delete (λ t. t.user_id == user_id && ltb t.expires_at fresh.now)
              w.refresh_tokens,
        )
        (any-snoc q (keep (λ t. not (t.user_id == user_id && ltb t.expires_at fresh.now)) (rows w))
          (new_row b p user_id fresh)
          (any-deleted q (λ t. t.user_id == user_id && ltb t.expires_at fresh.now) (rows w) h) n)

  refuse_user-absent :
      (q : RefreshToken → Bool) (w : World b) (user_id : String)
      → any q (rows w) ≡ false
      → any q (rows (refuse_user b p w user_id).0) ≡ false
  unfolding refuse_user
  refuse_user-absent q w user_id h =
      rw (b.refresh_tokens.rows_delete (λ t. t.user_id == user_id) w.refresh_tokens)
        (any-deleted q (λ t. t.user_id == user_id) (rows w) h)

  refresh_user-absent :
      (q : RefreshToken → Bool) (w : World b) (user_id : String) (fresh : Fresh) (o : Option User)
      → any q (rows w) ≡ false
      → q (new_row b p user_id fresh) ≡ false
      → any q (rows (refresh_user b p w user_id fresh o).0) ≡ false
  unfolding refresh_user issued
  refresh_user-absent q w user_id fresh none h n = refuse_user-absent q w user_id h
  refresh_user-absent q w user_id fresh (some user) h n = elim (Bool-cases user.is_active) [
    | inl e ↦ rw e (issue_tokens-absent q w user_id fresh h n)
    | inr e ↦ rw e (refuse_user-absent q w user_id h)
  ]

  refresh_found-absent :
      (q : RefreshToken → Bool) (w : World b) (fresh : Fresh) (o : Option RefreshToken)
      → any q (rows w) ≡ false
      → ((user_id : String) → q (new_row b p user_id fresh) ≡ false)
      → any q (rows (refresh_found b p w fresh o).0) ≡ false
  unfolding refresh_found
  refresh_found-absent q w fresh none h n = h
  refresh_found-absent q w fresh (some found) h n =
      elim (Bool-cases (ltb found.expires_at fresh.now)) [
        | inl e ↦ rw e h
        | inr e ↦ rw e (refresh_user-absent q w found.user_id fresh _ h (n found.user_id))
      ]

  -- After a redemption, accepted or not, no row has the hash of the token.
  pub refresh_tokens-absent :
      (w : World b) (token : String) (fresh : Fresh)
      → (p.hash_refresh_token fresh.token == p.hash_refresh_token token) ≡ false
      → any (has_hash b p token) (rows (refresh_tokens b p w token fresh).0) ≡ false
  unfolding refresh_tokens new_row
  refresh_tokens-absent w token fresh n =
      refresh_found-absent (has_hash b p token) _ fresh _
        (rw (b.refresh_tokens.rows_delete (has_hash b p token) w.refresh_tokens)
          (any-own_deleted (has_hash b p token) (rows w)))
        (λ user_id. n)

  refresh_found-none :
      (w : World b) (fresh : Fresh) (o : Option RefreshToken)
      → o ≡ none
      → (e : Thrown) × ((refresh_found b p w fresh o).1 ≡ thrown e)
  unfolding refresh_found
  refresh_found-none w fresh none h = (_, refl)
  refresh_found-none w fresh (some t) h = ground arith

  -- A token whose hash no row has is refused.
  pub refresh_tokens-missing :
      (w : World b) (token : String) (fresh : Fresh)
      → any (has_hash b p token) (rows w) ≡ false
      → (e : Thrown) × ((refresh_tokens b p w token fresh).1 ≡ thrown e)
  unfolding refresh_tokens
  refresh_tokens-missing w token fresh n =
      refresh_found-none _ fresh _ (find-absent (has_hash b p token) _ n)

  -- A redemption of any token keeps a hash absent that the new token does not have.
  pub refresh_tokens-keeps :
      (w : World b) (token other : String) (fresh : Fresh)
      → (p.hash_refresh_token fresh.token == p.hash_refresh_token token) ≡ false
      → any (has_hash b p token) (rows w) ≡ false
      → any (has_hash b p token) (rows (refresh_tokens b p w other fresh).0) ≡ false
  unfolding refresh_tokens new_row
  refresh_tokens-keeps w token other fresh n h =
      refresh_found-absent (has_hash b p token) _ fresh _
        (rw (b.refresh_tokens.rows_delete (has_hash b p other) w.refresh_tokens)
          (any-deleted (has_hash b p token) (has_hash b p other) (rows w) h))
        (λ user_id. n)

  pub issue_tokens-keeps :
      (w : World b) (token user_id : String) (fresh : Fresh)
      → (p.hash_refresh_token fresh.token == p.hash_refresh_token token) ≡ false
      → any (has_hash b p token) (rows w) ≡ false
      → any (has_hash b p token) (rows (issue_tokens b p w user_id fresh).0) ≡ false
  unfolding new_row
  issue_tokens-keeps w token user_id fresh n h =
      issue_tokens-absent (has_hash b p token) w user_id fresh h n

  pub logout-keeps :
      (w : World b) (user_id : String) (logs : Bool) (audit_id : String) (now : ℕ)
      (q : RefreshToken → Bool)
      → any q (rows w) ≡ false
      → any q (rows (logout b p w user_id logs audit_id now)) ≡ false
  unfolding logout
  logout-keeps w user_id logs audit_id now q h =
      rw (b.refresh_tokens.rows_delete (λ t. t.user_id == user_id) w.refresh_tokens)
        (any-deleted q (λ t. t.user_id == user_id) (rows w) h)

  -- What an accepted redemption says of the token and its user.
  abbrev pub IsRedeemable : World b → String → Fresh → Type 0
  IsRedeemable w token fresh =
      (found : RefreshToken) × (find (has_hash b p token) (rows w) ≡ some found)
      × (fresh.now ≤ found.expires_at)
      × ((user : User) × (find (λ u. u.id == found.user_id) (b.users.rows w.users) ≡ some user)
          × (user.is_active ≡ true))

  refresh_user-Sound :
      (w : World b) (user_id : String) (fresh : Fresh) (o : Option User) (r : Tokens)
      → (refresh_user b p w user_id fresh o).1 ≡ ok r
      → (user : User) × (o ≡ some user) × (user.is_active ≡ true)
  unfolding refresh_user refuse_user
  refresh_user-Sound w user_id fresh none r h = elim (thrown≢ok h) [ ]
  refresh_user-Sound w user_id fresh (some user) r h = elim (Bool-cases user.is_active) [
    | inl e ↦ (user, refl, e)
    | inr e ↦ elim (thrown≢ok (rw e at h)) [ ]
  ]

  refresh_found-Sound :
      (w : World b) (fresh : Fresh) (o : Option RefreshToken) (r : Tokens)
      → (refresh_found b p w fresh o).1 ≡ ok r
      → (found : RefreshToken) × (o ≡ some found)
        × (fresh.now ≤ found.expires_at)
        × ((user : User) × (find (λ u. u.id == found.user_id) (b.users.rows w.users) ≡ some user)
            × (user.is_active ≡ true))
  unfolding refresh_found
  refresh_found-Sound w fresh none r h = elim (thrown≢ok h) [ ]
  refresh_found-Sound w fresh (some found) r h =
      elim (Bool-cases (ltb found.expires_at fresh.now)) [
        | inl e ↦ elim (thrown≢ok (rw e at h)) [ ]
        | inr e ↦
            (found, refl, ground arith, refresh_user-Sound w found.user_id fresh _ r (rw e at h))
      ]

  -- Only a stored token that has not expired is redeemed, and only for a user that is active.
  pub refresh_tokens-Sound :
      (w : World b) (token : String) (fresh : Fresh) (r : Tokens)
      → (refresh_tokens b p w token fresh).1 ≡ ok r
      → IsRedeemable w token fresh
  unfolding refresh_tokens
  refresh_tokens-Sound w token fresh r h = refresh_found-Sound _ fresh _ r h

  -- After a logout the user has no refresh token, and other users have theirs.
  pub logout-Revokes :
      (w : World b) (user_id : String) (logs : Bool) (audit_id : String) (now : ℕ)
      → let v = logout b p w user_id logs audit_id now in
        (any (λ t. t.user_id == user_id) (rows v) ≡ false)
        × (keep (λ t. not (t.user_id == user_id)) (rows v)
            ≡ keep (λ t. not (t.user_id == user_id)) (rows w))
  unfolding logout
  logout-Revokes w user_id logs audit_id now =
      rw (b.refresh_tokens.rows_delete (λ t. t.user_id == user_id) w.refresh_tokens) (
        any-own_deleted (λ t. t.user_id == user_id) (rows w),
        keep-keep_same (λ t. not (t.user_id == user_id)) (rows w),
      )
