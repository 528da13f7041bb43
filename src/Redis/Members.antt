-- ===== src/Redis/Members.antt =====
-- src/redis/channel-members.service.ts: the member set of a channel, cached from Postgres.
pub mod Snapshot
mod Tests
use zevra_server.Prelude.{
  ℕ, String, Bool, false, ◌&&◌, List, [], ◌∷◌, Option, none, some, map, keep, any, ◌==◌,
}
use zevra_server.Schema.{Membership}
use zevra_server.Redis.{Redis, up, down, failing, channel_members_key, channel_members_seconds}
use zevra_server.Redis.Values.{Entry, del, expire, s_add, live, members_of, mem}
use zevra_server.Redis.Session.{Client, when_up, multi}

module _ (r : Redis) where
  unfoldable pub set_members : Client r → String → List String → ℕ → Client r
  set_members c channel_id [] now = c
  set_members c channel_id (u ∷ us) now = when_up r c (
      multi r now (channel_members_key channel_id)
        (del ∷ s_add (u ∷ us) ∷ expire channel_members_seconds ∷ []))

  unfoldable pub invalidate : Client r → String → ℕ → Client r
  invalidate c channel_id now = when_up r c (r.run now (channel_members_key channel_id) del)

  unfoldable pub cached_members : Client r → String → ℕ → List String
  cached_members c channel_id now = elim c.link [
    | up ↦ members_of (live now (r.entry c.store (channel_members_key channel_id)))
    | _ ↦ []
  ]

  -- `rows` is what the memberships table holds.
  unfoldable pub stored_members : List Membership → String → List String
  stored_members rows channel_id =
      map (λ m. m.user_id) (keep (λ m. m.channel_id == channel_id) rows)

  or_rebuild : Client r → List Membership → String → ℕ → List String → Client r × List String
  or_rebuild c rows channel_id now [] =
      let members = stored_members rows channel_id in
      (set_members c channel_id members now, members)
  or_rebuild c rows channel_id now (m ∷ ms) = (c, m ∷ ms)

  unfoldable pub get_members : Client r → List Membership → String → ℕ → Client r × List String
  unfolding or_rebuild
  get_members c rows channel_id now =
      or_rebuild c rows channel_id now (cached_members c channel_id now)

  -- The row that the query finds.
  unfoldable pub is_stored : List Membership → String → String → Bool
  is_stored rows channel_id user_id =
      any (λ m. m.channel_id == channel_id && m.user_id == user_id) rows

  lists : String → Client r × List String → Client r × Bool
  lists user_id (c, members) = (c, mem user_id members)

  -- EXISTS and SISMEMBER: a set that is there is what counts.
  found_in : Client r → List Membership → String → String → ℕ → Option Entry → Client r × Bool
  unfolding lists
  found_in c rows channel_id user_id now none = lists user_id (get_members c rows channel_id now)
  found_in c rows channel_id user_id now (some e) = (c, mem user_id (members_of (some e)))

  pub is_member : Client r → List Membership → String → String → ℕ → Client r × Bool
  unfolding found_in is_stored
  is_member c rows channel_id user_id now = elim c.link [
    | up ↦
        found_in c rows channel_id user_id now
          (live now (r.entry c.store (channel_members_key channel_id)))
    | failing ↦ lists user_id (get_members c rows channel_id now)
    | down ↦ (c, is_stored rows channel_id user_id)
  ]
