-- ===== src/Channels/Members/Roster.antt =====
-- The member lists under additions and removals, channels.service.ts.
use zevra_server.Prelude.{
  ℕ, ◌≤◌, ◌≡◌, refl, ap, String, Bool, not, ◌&&◌, List, Option, none, some, arith, keep, any,
  length, Bool-cases, ◌==◌, inl, inr,
}
use zevra_server.Schema.{Membership}
use zevra_server.Store.{Backend, World}
use zevra_server.Store.Passing.{length-update_same}
use zevra_server.Store.Laws.{length-keep-keep}
use zevra_server.Channels.{is_admin, get_role, is_membership, is_in, is_admin_of}
use zevra_server.Channels.Members.{
  promote, promote_oldest, settle, remove_member, remove_found, finish_remove, earliest,
}
use zevra_server.Channels.Members.Admins.{EveryHasAdmin, IsUnique, remove_member-EveryHasAdmin}

-- No channel has more than the greatest number of participants and its creator.
abbrev pub IsCapped : List Membership → Type 0
IsCapped l = (channel_id : String) → length (keep (is_in channel_id) l) ≤ 51

-- Nobody is in a channel twice, every channel with members has an admin, and none is too large.
abbrev pub IsRoster : List Membership → Type 0
IsRoster l = IsUnique l × EveryHasAdmin l × IsCapped l

-- What a statement leaves of the rows that pass a test on user and channel.
abbrev IsFewer : List Membership → List Membership → Type 0
IsFewer k l =
    (p : Membership → Bool)
    → ((x : Membership) → p (promote x) ≡ p x)
    → length (keep p k) ≤ length (keep p l)

module _ (b : Backend) where
  abbrev members : b.memberships.State → List Membership
  members = b.memberships.rows

  promote-IsFewer :
      (t : b.memberships.State) (o : Option Membership)
      → IsFewer (members (promote_oldest b t o).0) (members t)
  unfolding promote_oldest
  promote-IsFewer t none p h = omega arith
  promote-IsFewer t (some m) p h =
      rw
        (
          b.memberships.rows_update (λ x. x.id == m.id) promote t,
          length-update_same p (λ x. x.id == m.id) promote h (members t),
        )
        (omega arith)

  settle-IsFewer :
      (c : String) (gone : Membership) (t : b.memberships.State)
      → IsFewer (members (settle b c gone t).0) (members t)
  unfolding settle
  settle-IsFewer c gone t p h =
      elim (Bool-cases (gone.role == "ADMIN" && not (any (is_admin_of c) (members t)))) [
        | inl e ↦ rw e (promote-IsFewer t (earliest (keep (is_in c) (members t))) p h)
        | inr e ↦ rw e (omega arith)
      ]

  remove_found-IsFewer :
      (w : World b) (c u : String) (now : ℕ) (o : Option Membership)
      → IsFewer (members (remove_found b w c u now o).0.memberships) (members w.memberships)
  unfolding remove_found finish_remove
  remove_found-IsFewer w c u now none p h = omega arith
  remove_found-IsFewer w c u now (some gone) p h =
      let left = b.memberships.delete (is_membership c u) w.memberships in
      let rows = b.memberships.rows_delete (is_membership c u) w.memberships in
      let less = settle-IsFewer c gone left p h in
      let few = length-keep-keep p (λ x. not (is_membership c u x)) (members w.memberships) in
      omega (arith, less, few, ap (λ l. length (keep p l)) rows)

  remove_member-IsFewer :
      (w : World b) (channel_id requester_id target_user_id : String) (now : ℕ)
      → IsFewer
          (members (remove_member b w channel_id requester_id target_user_id now).0.memberships)
          (members w.memberships)
  unfolding remove_member
  remove_member-IsFewer w channel_id requester_id target_user_id now p h =
      elim (Bool-cases (
        not (requester_id == target_user_id)
        && not (is_admin (get_role b w channel_id requester_id)))) [
          | inl e ↦ rw e (omega arith)
          | inr e ↦ rw e (remove_found-IsFewer w channel_id target_user_id now _ p h)
        ]

  -- Removing a member or leaving, accepted or refused, keeps the member lists in order: nobody is
  -- in a channel twice, every channel with members has an admin, and none has more than 51 members.
  pub remove_member-IsRoster :
      (w : World b) (channel_id requester_id target_user_id : String) (now : ℕ)
      → IsRoster (members w.memberships)
      → IsRoster
          (members (remove_member b w channel_id requester_id target_user_id now).0.memberships)
  remove_member-IsRoster w channel_id requester_id target_user_id now (unique, admins, capped) =
      let fewer = remove_member-IsFewer w channel_id requester_id target_user_id now in
      (
        λ c u. omega (arith, fewer (is_membership c u) (λ x. refl), unique c u),
        remove_member-EveryHasAdmin b w channel_id requester_id target_user_id now unique admins,
        λ c. omega (arith, fewer (is_in c) (λ x. refl), capped c),
      )
