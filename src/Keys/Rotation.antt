-- ===== src/Keys/Rotation.antt =====
-- Key versions under rotation, keys.service.ts.
use zevra_server.Prelude.{
  ℕ, ◌≤◌, ◌<◌, ◌≡◌, refl, ◌∙◌, ap, sym, String, Bool, true, false, ◌&&◌, List, Option, none, some,
  arith, any, update_where, ltb, ◌==◌, inl, inr, ◌⊎◌, eq_iff, and_true, ltb→lt,
}
use zevra_server.Schema.{User}
use zevra_server.Store.{Backend, World}
use zevra_server.Store.Laws.{find-none, find-absent, update_where-absent, any-update_where}
use zevra_server.Store.Pointwise.{Pointwise, Pointwise-update_where}
use zevra_server.Errors.Thrown.{Thrown, thrown, thrown≢ok}
use zevra_server.Keys.{RotateKeysParams, rotate_keys, rotated, is_due, with_keys}

-- What a rotation of `user_id` to `version` may do to a row: nothing, or set a greater version
-- of this user.
abbrev pub Climbs : String → ℕ → User → User → Type 0
Climbs user_id version u v =
    (u ≡ v)
    ⊎ ((u.id ≡ user_id) × (v.id ≡ user_id) × (u.key_version < version) × (v.key_version ≡ version))

and-ltb-false : (t : Bool) (a b : ℕ) → b ≤ a → t && ltb a b ≡ false
and-ltb-false true a b h = ground arith
and-ltb-false false a b h = refl

and-ltb-less : (t : Bool) (k v n : ℕ) → v ≤ n → t && ltb k n ≡ false → t && ltb k v ≡ false
and-ltb-less true k v n h e = ground arith
and-ltb-less false k v n h e = refl

module _ (b : Backend) where
  abbrev pub users : World b → List User
  users w = b.users.rows w.users

  module _ (w : World b) (user_id : String) (version : ℕ) (audit_id : String) (now : ℕ)
      (logs : Bool) where
    rotated-users :
        (o : Option User) → (rotated b w user_id version audit_id now logs o).0.users ≡ w.users
    unfolding rotated
    rotated-users none = refl
    rotated-users (some u) = refl

    rotated-thrown :
        (e : Thrown) (o : Option User)
        → (rotated b w user_id version audit_id now logs o).1 ≡ thrown e
        → o ≡ none
    unfolding rotated
    rotated-thrown e none h = refl
    rotated-thrown e (some u) h = elim (thrown≢ok (sym h)) [ ]

    rotated-none :
        (o : Option User)
        → o ≡ none
        → (e : Thrown) × ((rotated b w user_id version audit_id now logs o).1 ≡ thrown e)
    unfolding rotated
    rotated-none none h = (_, refl)
    rotated-none (some u) h = ground arith

  module _ (w : World b) (user_id : String) (params : RotateKeysParams) (audit_id : String)
      (now : ℕ) (logs : Bool) where
    abbrev version : ℕ
    version = params.new_key_version

    abbrev after : World b
    after = (rotate_keys b w user_id params audit_id now logs).0

    users-after :
        users after ≡ update_where (is_due user_id version) (with_keys params now) (users w)
    unfolding rotate_keys
    users-after =
        ap b.users.rows (rotated-users _ user_id version audit_id now logs _)
        ∙ b.users.rows_update (is_due user_id version) (with_keys params now) w.users

    -- A rotation leaves every row as it is, or it is one of the user whose version was below the
    -- new one and becomes it.
    pub rotate_keys-Climbs : Pointwise (Climbs user_id version) (users w) (users after)
    rotate_keys-Climbs = rw users-after (
        Pointwise-update_where (Climbs user_id version) (is_due user_id version)
          (with_keys params now) (λ x. inl refl)
          (λ x h.
            let (p, q) = and_true (x.id == user_id) (ltb x.key_version version) h in
            inr (
              (eq_iff x.id user_id).0 p,
              (eq_iff x.id user_id).0 p,
              ltb→lt x.key_version version q,
              refl,
            ))
          (users w))

    -- A refused rotation changes no row.
    rotate_keys-refused :
        (e : Thrown)
        → (rotate_keys b w user_id params audit_id now logs).1 ≡ thrown e
        → users after ≡ users w
    unfolding rotate_keys
    rotate_keys-refused e h =
        users-after
        ∙ update_where-absent (is_due user_id version) (with_keys params now) (users w) (
            find-none (is_due user_id version) (users w)
              (rotated-thrown _ user_id version audit_id now logs e _ h))

    -- No later row of the user is below the version.
    pub none-due : (v : ℕ) → v ≤ version → any (is_due user_id v) (users after) ≡ false
    none-due v h = rw users-after (
        any-update_where (is_due user_id version) (is_due user_id v) (with_keys params now)
          (λ x e. and-ltb-false (x.id == user_id) version v h)
          (λ x e. and-ltb-less (x.id == user_id) x.key_version v version h e) (users w))

  -- A rotation is refused when no row of the user has a lower version.
  pub rotate_keys-not_due :
      (w : World b) (user_id : String) (params : RotateKeysParams) (audit_id : String) (now : ℕ)
      (logs : Bool)
      → any (is_due user_id params.new_key_version) (users w) ≡ false
      → (e : Thrown) × ((rotate_keys b w user_id params audit_id now logs).1 ≡ thrown e)
  unfolding rotate_keys
  rotate_keys-not_due w user_id params audit_id now logs h =
      rotated-none _ user_id params.new_key_version audit_id now logs _
        (find-absent (is_due user_id params.new_key_version) _ h)
