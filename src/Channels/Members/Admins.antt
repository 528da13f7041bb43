-- ===== src/Channels/Members/Admins.antt =====
-- A channel with members keeps an admin, channels.service.ts.
use zevra_server.Prelude.{
  ℕ, ◌≤◌, ◌≡◌, refl, ◌∙◌, ap, sym, subst, String, Bool, true, false, false≢true, not, ◌&&◌, List,
  Option, none, some, arith, keep, any, find, length, Bool-cases, Option-cases, ◌==◌, inl, inr,
  eq_iff, eq_refl, and_true, both_eq_iff,
}
use zevra_server.Schema.{Membership}
use zevra_server.Store.{Backend, World}
use zevra_server.Store.Passing.{
  any-delete, any-delete_other, any-update_same, any-update_gain, any-delete_one, any-update_hit,
  any-keep_sub,
}
use zevra_server.Store.Laws.{any-keep, All-keep_self}
use zevra_server.Channels.{is_admin, get_role, is_membership, is_in, is_admin_of}
use zevra_server.Channels.Members.Earliest.{earliest-any, earliest-All, earliest-none}
use zevra_server.Channels.Members.{
  earliest, promote, promote_oldest, settle, remove_member, remove_found, finish_remove,
}

-- A channel that has members has an admin.
abbrev pub HasAdmin : String → List Membership → Type 0
HasAdmin channel_id l = any (is_in channel_id) l ≡ true → any (is_admin_of channel_id) l ≡ true

-- Every channel that has members has an admin.
abbrev pub EveryHasAdmin : List Membership → Type 0
EveryHasAdmin l = (channel_id : String) → HasAdmin channel_id l

-- The unique index on user and channel.
abbrev pub IsUnique : List Membership → Type 0
IsUnique l = (channel_id user_id : String) → length (keep (is_membership channel_id user_id) l) ≤ 1

is_in-other :
    (c d u : String)
    → (c == d) ≡ false
    → (x : Membership) → is_membership c u x ≡ true
    → is_in d x ≡ false
is_in-other c d u h x e =
    ground (arith, both_eq_iff x.user_id u x.channel_id c, eq_iff x.channel_id d, eq_iff c d)

not_both : (p q : Bool) → q ≡ false → p && q ≡ false
not_both true q h = h
not_both false q h = refl

promoted : (d : String) (x : Membership) → is_admin_of d x ≡ true → is_admin_of d (promote x) ≡ true
promoted d x e = ground (arith, and_true (x.channel_id == d) (x.role == "ADMIN") e)

module _ (b : Backend) where
  abbrev members : b.memberships.State → List Membership
  members = b.memberships.rows

  -- A promotion gives every channel with members an admin if the others have one already.
  promote-HasAdmin_other :
      (t : b.memberships.State) (o : Option Membership) (d : String)
      → HasAdmin d (members t)
      → HasAdmin d (members (promote_oldest b t o).0)
  unfolding promote_oldest
  promote-HasAdmin_other t none d h k = h k
  promote-HasAdmin_other t (some m) d h k =
      let rows = b.memberships.rows_update (λ x. x.id == m.id) promote t in
      rw rows (
        any-update_gain (is_admin_of d) (λ x. x.id == m.id) promote (λ x e. promoted d x e)
          (members t)
          (h (
            sym (any-update_same (is_in d) (λ x. x.id == m.id) promote (λ x. refl) (members t))
            ∙ rw rows at k)))

  promote-HasAdmin :
      (t : b.memberships.State) (c : String)
      → HasAdmin c (members (promote_oldest b t (earliest (keep (is_in c) (members t)))).0)
  unfolding promote_oldest any
  promote-HasAdmin t c k = elim (Option-cases (earliest (keep (is_in c) (members t)))) [
    | inl e ↦
        elim (false≢true (
          sym (any-keep (is_in c) (members t) ∙ ap (any (λ x. true)) (earliest-none _ e))
          ∙ rw (e, promote_oldest) at k)) [ ]
    | inr (m, e) ↦
        let here =
          earliest-All (is_in c) (keep (is_in c) (members t)) m
            (All-keep_self (is_in c) (members t)) e in
        let hit =
          earliest-any (λ x. x.id == m.id && is_in c x) m (keep (is_in c) (members t)) e
            (rw (eq_refl m.id, here) refl) in
        rw (e, promote_oldest, b.memberships.rows_update (λ x. x.id == m.id) promote t)
          (any-update_hit (is_in c) (λ x. x.id == m.id) (is_admin_of c) promote
            (λ x q h. rw (h, eq_refl "ADMIN") refl) (members t)
            (any-keep_sub (λ x. x.id == m.id && is_in c x) (is_in c) (members t) hit))
  ]

  module _ (t : b.memberships.State) (c u : String) (gone : Membership)
      (found : find (is_membership c u) (members t) ≡ some gone)
      (unique : length (keep (is_membership c u) (members t)) ≤ 1) where
    abbrev left : b.memberships.State
    left = b.memberships.delete (is_membership c u) t

    -- In another channel nothing is missed.
    left-HasAdmin_other :
        (d : String) → (c == d) ≡ false → HasAdmin d (members t) → HasAdmin d (members left)
    left-HasAdmin_other d n h k =
        let rows = b.memberships.rows_delete (is_membership c u) t in
        rw rows (
          any-delete_other (is_admin_of d) (is_membership c u)
            (λ x e. rw (is_in-other c d u n x e) refl) (members t)
            (h (any-delete (is_in d) (is_membership c u) (members t) (rw rows at k))))

    left-HasAdmin_same :
        (gone.role == "ADMIN") ≡ false → HasAdmin c (members t) → HasAdmin c (members left)
    left-HasAdmin_same n h k =
        let rows = b.memberships.rows_delete (is_membership c u) t in
        rw rows (
          any-delete_one (is_admin_of c) (is_membership c u) gone (members t) found unique
            (not_both (gone.channel_id == c) (gone.role == "ADMIN") n)
            (h (any-delete (is_in c) (is_membership c u) (members t) (rw rows at k))))

    settle-HasAdmin_other :
        (d : String)
        → (c == d) ≡ false
        → HasAdmin d (members t)
        → HasAdmin d (members (settle b c gone left).0)
    unfolding settle
    settle-HasAdmin_other d n h =
        let before = left-HasAdmin_other d n h in
        elim (Bool-cases (gone.role == "ADMIN" && not (any (is_admin_of c) (members left)))) [
          | inl e ↦
              rw e (promote-HasAdmin_other left (earliest (keep (is_in c) (members left))) d before)
          | inr e ↦ rw e before
        ]

    settle-HasAdmin_same : HasAdmin c (members t) → HasAdmin c (members (settle b c gone left).0)
    unfolding settle
    settle-HasAdmin_same h = elim (Bool-cases (gone.role == "ADMIN")) [
      | inr n ↦ rw n (left-HasAdmin_same n h)
      | inl y ↦ elim (Bool-cases (any (is_admin_of c) (members left))) [
        | inl e ↦ rw (y, e) (λ k. e)
        | inr e ↦ rw (y, e) (promote-HasAdmin left c)
      ]
    ]

    settle-EveryHasAdmin :
        EveryHasAdmin (members t) → EveryHasAdmin (members (settle b c gone left).0)
    settle-EveryHasAdmin h d = elim (Bool-cases (c == d)) [
      | inl e ↦
          subst (λ x. HasAdmin x (members (settle b c gone left).0)) ((eq_iff c d).0 e)
            (settle-HasAdmin_same (h c))
      | inr n ↦ settle-HasAdmin_other d n (h d)
    ]

  remove_found-EveryHasAdmin :
      (w : World b) (c u : String) (now : ℕ) (o : Option Membership)
      → find (is_membership c u) (members w.memberships) ≡ o
      → IsUnique (members w.memberships)
      → EveryHasAdmin (members w.memberships)
      → EveryHasAdmin (members (remove_found b w c u now o).0.memberships)
  unfolding remove_found finish_remove
  remove_found-EveryHasAdmin w c u now none f unique h = h
  remove_found-EveryHasAdmin w c u now (some gone) f unique h =
      settle-EveryHasAdmin w.memberships c u gone f (unique c u) h

  -- Removing a member or leaving, accepted or refused, keeps an admin in every channel that has
  -- members.
  pub remove_member-EveryHasAdmin :
      (w : World b) (channel_id requester_id target_user_id : String) (now : ℕ)
      → IsUnique (members w.memberships)
      → EveryHasAdmin (members w.memberships)
      → EveryHasAdmin
          (members (remove_member b w channel_id requester_id target_user_id now).0.memberships)
  unfolding remove_member
  remove_member-EveryHasAdmin w channel_id requester_id target_user_id now unique h =
      elim (Bool-cases (
        not (requester_id == target_user_id)
        && not (is_admin (get_role b w channel_id requester_id)))) [
          | inl e ↦ rw e h
          | inr e ↦
              rw e (remove_found-EveryHasAdmin w channel_id target_user_id now _ refl unique h)
        ]
