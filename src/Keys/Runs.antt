-- ===== src/Keys/Runs.antt =====
-- Runs of keys.service.ts: rotations, and calls that do to the users what other services do.
use zevra_server.Prelude.{
  ℕ, ◌≤◌, ◌≡◌, refl, ◌∙◌, ap, sym, String, Bool, true, false, ◌&&◌, List, [], ◌∷◌, ◌++◌, arith, any,
  ltb, ◌==◌, inl, inr,
}
use zevra_server.Schema.{User}
use zevra_server.Store.{Backend, World}
use zevra_server.Store.Pointwise.{Pointwise}
use zevra_server.Errors.Thrown.{Thrown, thrown}
use zevra_server.Keys.{RotateKeysParams, rotate_keys, is_due}
use zevra_server.Keys.Rotation.{Climbs, users, none-due, rotate_keys-Climbs, rotate_keys-not_due}

-- The row keeps its id, and its version does not fall.
abbrev pub NotBelow : User → User → Type 0
NotBelow u v = (u.id ≡ v.id) × (u.key_version ≤ v.key_version)

module _ (user_id : String) (version : ℕ) where
  still_above :
      (u v : User)
      → NotBelow u v
      → is_due user_id version u ≡ false
      → is_due user_id version v ≡ false
  still_above u v (e, l) d = rw (sym e) (by_test (u.id == user_id) d)
    where
      by_test :
          (t : Bool)
          → t && ltb u.key_version version ≡ false
          → t && ltb v.key_version version ≡ false
      by_test false d = refl
      by_test true d = ground arith

  Pointwise-not_due :
      (us vs : List User)
      → Pointwise NotBelow us vs
      → any (is_due user_id version) us ≡ false
      → any (is_due user_id version) vs ≡ false
  unfolding any
  Pointwise-not_due [] [] p d = refl
  Pointwise-not_due [] (v ∷ vs) p d = elim p [ ]
  Pointwise-not_due (u ∷ us) [] p d = refl
  Pointwise-not_due (u ∷ us) (v ∷ vs) (p, ps) d =
      ground (arith, still_above u v p, Pointwise-not_due us vs ps)

  any-other :
      (us : List User) (r : User)
      → (r.id == user_id) ≡ false
      → any (is_due user_id version) us ≡ false
      → any (is_due user_id version) (us ++ r ∷ []) ≡ false
  unfolding any
  any-other [] r n d = rw n refl
  any-other (u ∷ us) r n d = ground (arith, any-other us r n)

Climbs-NotBelow :
    (user_id : String) (version : ℕ) (us vs : List User)
    → Pointwise (Climbs user_id version) us vs
    → Pointwise NotBelow us vs
Climbs-NotBelow user_id version [] [] p = tt
Climbs-NotBelow user_id version [] (v ∷ vs) p = p
Climbs-NotBelow user_id version (u ∷ us) [] p = p
Climbs-NotBelow user_id version (u ∷ us) (v ∷ vs) (p, ps) = (
  elim p [
    | inl e ↦ (ap (λ x. x.id) e, omega (arith, ap (λ x. x.key_version) e))
    | inr (i, j, l, e) ↦ (i ∙ sym j, omega (arith, l, e))
  ],
  Climbs-NotBelow user_id version us vs ps,
)

module _ (b : Backend) (user_id : String) where
  -- One call: a rotation of any user to any version, a registration of another user, or a call that
  -- keeps the ids of the users and lets no version fall, such as a login or a logout.
  pub data Step (w v : World b) : Type 0 where
    rotation :
        (other : String) (params : RotateKeysParams) (audit_id : String) (now : ℕ) (logs : Bool)
        → v ≡ (rotate_keys b w other params audit_id now logs).0
        → Step w v
    registration :
        (r : User) → (r.id == user_id) ≡ false → users b v ≡ users b w ++ r ∷ [] → Step w v
    elsewhere : Pointwise NotBelow (users b w) (users b v) → Step w v

  pub data Reaches (w : World b) : World b → Type 0 where
    here : Reaches w w
    next : {v u : World b} → Reaches w v → Step v u → Reaches w u

  -- No row of the user has a version below.
  abbrev IsReached : ℕ → World b → Type 0
  IsReached version w = any (is_due user_id version) (users b w) ≡ false

  Step-IsReached :
      (version : ℕ) (w v : World b) → Step w v → IsReached version w → IsReached version v
  Step-IsReached version w v (rotation other params audit_id now logs e) d =
      ap (λ u. any (is_due user_id version) (users b u)) e
      ∙ Pointwise-not_due user_id version _ _
          (Climbs-NotBelow other params.new_key_version _ _
            (rotate_keys-Climbs b w other params audit_id now logs))
          d
  Step-IsReached version w v (registration r n e) d =
      ap (any (is_due user_id version)) e ∙ any-other user_id version (users b w) r n d
  Step-IsReached version w v (elsewhere p) d = Pointwise-not_due user_id version _ _ p d

  Reaches-IsReached :
      (version : ℕ) (w v : World b) → Reaches w v → IsReached version w → IsReached version v
  Reaches-IsReached version w _ here d = d
  Reaches-IsReached version w _ (next {v} {u} r s) d =
      Step-IsReached version v u s (Reaches-IsReached version w v r d)

-- A rotation of a user to a version, accepted or not, is followed by any run of rotations of any
-- users to any versions, registrations of others, and calls that keep the ids of the users and let
-- no version fall. After it a rotation of the user to that version or a lower one is refused.
pub rotate_keys-once :
    (b : Backend) (user_id : String) (w v : World b) (params later : RotateKeysParams)
    (audit_id later_id : String) (now moment : ℕ) (logs later_logs : Bool)
    → later.new_key_version ≤ params.new_key_version
    → Reaches b user_id (rotate_keys b w user_id params audit_id now logs).0 v
    → (e : Thrown) × ((rotate_keys b v user_id later later_id moment later_logs).1 ≡ thrown e)
rotate_keys-once b user_id w v params later audit_id later_id now moment logs later_logs h r =
    rotate_keys-not_due b v user_id later later_id moment later_logs (
      Reaches-IsReached b user_id later.new_key_version _ v r
        (none-due b w user_id params audit_id now logs later.new_key_version h))
