-- ===== src/Channels/Members/Joining.antt =====
-- Adding a member, channels.service.ts.
use zevra_server.Prelude.{
  ℕ, ◌≤◌, ◌+◌, ◌≡◌, refl, subst, String, Bool, true, false, false≢true, List, [], ◌∷◌, ◌++◌, Option,
  none, some, arith, keep, any, find, length, length-append, leb, Bool-cases, Option-cases, ◌==◌,
  inl, inr, ◌⊎◌, eq_iff, and_true, keep-append, both_eq_iff,
}
use zevra_server.Schema.{Membership, User, Channel}
use zevra_server.Store.{Backend, World}
use zevra_server.Store.Passing.{none_kept, any-append, any-append_last, find-any, find-pass}
use zevra_server.Errors.Thrown.{Thrown, Result, thrown, not_found, bad_request, conflict}
use zevra_server.Channels.{is_admin, get_role, is_membership, is_in, is_admin_of, new_membership}
use zevra_server.Channels.Members.{add_member, join_channel, join_user, join, NewMember}
use zevra_server.Channels.Members.Admins.{EveryHasAdmin, IsUnique}
use zevra_server.Channels.Members.Roster.{IsRoster, IsCapped}

length-keep_last :
    (p : Membership → Bool) (l : List Membership) (r : Membership)
    → length (keep p (l ++ r ∷ [])) ≡ length (keep p l) + length (keep p (r ∷ []))
length-keep_last p l r = rw (keep-append p l (r ∷ [])) (length-append (keep p l) (keep p (r ∷ [])))

length-keep_one : (p : Membership → Bool) (r : Membership) → length (keep p (r ∷ [])) ≤ 1
unfolding keep
length-keep_one p r = ground arith

length-keep_miss :
    (p : Membership → Bool) (r : Membership) → p r ≡ false → length (keep p (r ∷ [])) ≡ 0
unfolding keep
length-keep_miss p r h = rw h refl

-- A new row, in a channel that has an admin and room, of somebody who was not in it.
module _ (l : List Membership) (r : Membership) (roster : IsRoster l)
    (absent : any (is_membership r.channel_id r.user_id) l ≡ false)
    (admin : any (is_admin_of r.channel_id) l ≡ true)
    (room : length (keep (is_in r.channel_id) l) ≤ 50) where
  joined-IsUnique : IsUnique (l ++ r ∷ [])
  joined-IsUnique d v = elim (Bool-cases (is_membership d v r)) [
    | inl e ↦
        let (p, q) = (both_eq_iff r.user_id v r.channel_id d).0 e in
        let gone = none_kept (is_membership d v) l (
          subst (λ x. any (is_membership x v) l ≡ false) q
            (subst (λ x. any (is_membership r.channel_id x) l ≡ false) p absent)) in
        omega (
          arith,
          length-keep_last (is_membership d v) l r,
          length-keep_one (is_membership d v) r,
          gone,
        )
    | inr e ↦ omega (
      arith,
      length-keep_last (is_membership d v) l r,
      length-keep_miss (is_membership d v) r e,
      roster.0 d v,
    )
  ]

  joined-EveryHasAdmin : EveryHasAdmin (l ++ r ∷ [])
  joined-EveryHasAdmin d k = elim (Bool-cases (is_in d r)) [
    | inl e ↦
        any-append (is_admin_of d) l (r ∷ [])
          (subst (λ x. any (is_admin_of x) l ≡ true) ((eq_iff r.channel_id d).0 e) admin)
    | inr e ↦ any-append (is_admin_of d) l (r ∷ []) (roster.1 d (any-append_last (is_in d) l r k e))
  ]

  joined-IsCapped : IsCapped (l ++ r ∷ [])
  joined-IsCapped d = elim (Bool-cases (is_in d r)) [
    | inl e ↦
        let few = subst (λ x. length (keep (is_in x) l) ≤ 50) ((eq_iff r.channel_id d).0 e) room in
        omega (arith, length-keep_last (is_in d) l r, length-keep_one (is_in d) r, few)
    | inr e ↦
        omega (arith, length-keep_last (is_in d) l r, length-keep_miss (is_in d) r e, roster.2 d)
  ]

module _ (b : Backend) where
  abbrev members : b.memberships.State → List Membership
  members = b.memberships.rows

  admin_role :
      (w : World b) (c u : String)
      → is_admin (get_role b w c u) ≡ true
      → any (is_admin_of c) (members w.memberships) ≡ true
  unfolding get_role
  admin_role w c u h = elim (Option-cases (find (is_membership c u) (members w.memberships))) [
    | inl e ↦ elim (false≢true (rw e at h)) [ ]
    | inr (m, e) ↦ find-any (is_membership c u) (is_admin_of c) m (members w.memberships) e (
        rw ((and_true (m.user_id == u) (m.channel_id == c) (find-pass (is_membership c u) m _ e)).1)
          (rw e at h))
  ]

  -- An addition is refused and changes nothing, or adds one row under these conditions.
  abbrev Adds : World b → String → World b × Result NewMember → Type 0
  Adds w c r =
      ((e : Thrown) × (r ≡ (w, thrown e)))
      ⊎ ((m : Membership) × (members r.0.memberships ≡ members w.memberships ++ m ∷ [])
          × (m.channel_id ≡ c)
          × (any (is_membership m.channel_id m.user_id) (members w.memberships) ≡ false)
          × (length (keep (is_in c) (members w.memberships)) ≤ 50))

  join-Adds :
      (w : World b) (c : String) (user : User) (role id : String) (now : ℕ)
      → length (keep (is_in c) (members w.memberships)) ≤ 50
      → Adds w c (join b w c user role id now)
  unfolding join
  join-Adds w c user role id now h =
      elim (Bool-cases (any (is_membership c user.id) (members w.memberships))) [
        | inl e ↦ rw e (inl (conflict "User is already a member", refl))
        | inr e ↦ rw e (
            inr (
              new_membership id role user.id c now,
              b.memberships.rows_insert _ w.memberships,
              refl,
              e,
              h,
            ))
      ]

  join_user-Adds :
      (w : World b) (c role id : String) (now : ℕ) (o : Option User)
      → Adds w c (join_user b w c role id now o)
  unfolding join_user
  join_user-Adds w c role id now none = inl (not_found "User not found", refl)
  join_user-Adds w c role id now (some user) =
      elim (Bool-cases (leb 51 (length (keep (is_in c) (members w.memberships))))) [
        | inl e ↦ rw e (inl (bad_request "Channel is full", refl))
        | inr e ↦ rw e (join-Adds w c user role id now (ground arith))
      ]

  join_channel-Adds :
      (w : World b) (c u role id : String) (now : ℕ) (o : Option Channel)
      → Adds w c (join_channel b w c u role id now o)
  unfolding join_channel
  join_channel-Adds w c u role id now none = inl (not_found "Channel not found", refl)
  join_channel-Adds w c u role id now (some channel) = elim (Bool-cases (channel.type == "GROUP")) [
    | inl e ↦ rw e (join_user-Adds w c role id now _)
    | inr e ↦ rw e (inl (bad_request "Members can only be added to group channels", refl))
  ]

  Adds-IsRoster :
      (w : World b) (c : String) (r : World b × Result NewMember)
      → any (is_admin_of c) (members w.memberships) ≡ true
      → IsRoster (members w.memberships)
      → Adds w c r
      → IsRoster (members r.0.memberships)
  Adds-IsRoster w c r admin h (inl (e, q)) = rw q h
  Adds-IsRoster w c r admin h (inr (m, rows, at_c, absent, room)) = rw rows (
    joined-IsUnique (members w.memberships) m h absent (rw at_c admin) (rw at_c room),
    joined-EveryHasAdmin (members w.memberships) m h absent (rw at_c admin) (rw at_c room),
    joined-IsCapped (members w.memberships) m h absent (rw at_c admin) (rw at_c room),
  )

  -- Adding a member, accepted or refused, keeps the member lists in order: nobody is in a channel
  -- twice, every channel with members has an admin, and none has more than 51 members.
  pub add_member-IsRoster :
      (w : World b) (channel_id requester_id new_user_id : String) (role : Option String)
      (id : String) (now : ℕ)
      → IsRoster (members w.memberships)
      → IsRoster
          (members (add_member b w channel_id requester_id new_user_id role id now).0.memberships)
  unfolding add_member
  add_member-IsRoster w channel_id requester_id new_user_id role id now h =
      elim (Bool-cases (is_admin (get_role b w channel_id requester_id))) [
        | inl e ↦ rw e (
            Adds-IsRoster w channel_id _ (admin_role w channel_id requester_id e) h
              (join_channel-Adds w channel_id new_user_id _ id now _))
        | inr e ↦ rw e h
      ]
