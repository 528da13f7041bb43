-- ===== src/Redis/Cache.antt =====
-- src/redis/redis-cache.service.ts: recent messages, unread counters and typing indicators.
pub mod Bounded
mod Tests
use zevra_server.Prelude.{ℕ, ◌+◌, String, List, [], ◌∷◌, map}
use zevra_server.Redis.{
  Redis, up, message_cache_key, unread_key, typing_key, message_cache_size, message_cache_seconds,
  unread_seconds, typing_seconds, typing_entry_ms,
}
use zevra_server.Redis.Values.{
  del, expire, incr, z_add, z_rem, z_rem_up_to, r_push, l_trim, live, items_of, counter_of, last_of,
}
use zevra_server.Redis.Session.{Client, when_up, multi, sorted_at}

module _ (r : Redis) where
  -- `message` is the serialised message.
  unfoldable pub cache_message : Client r → String → String → ℕ → Client r
  cache_message c channel_id message now = when_up r c (
      multi r now (message_cache_key channel_id)
        (r_push message ∷ l_trim message_cache_size ∷ expire message_cache_seconds ∷ []))

  -- `lRange(key, -limit, -1)`
  unfoldable pub get_recent_messages : Client r → String → ℕ → ℕ → List String
  get_recent_messages c channel_id limit now = elim c.link [
    | up ↦ last_of limit (items_of (live now (r.entry c.store (message_cache_key channel_id))))
    | _ ↦ []
  ]

  unfoldable pub invalidate_messages : Client r → String → ℕ → Client r
  invalidate_messages c channel_id now = when_up r c (r.run now (message_cache_key channel_id) del)

  -- The loop of `incrementUnreadMany`.
  unfoldable pub increment_all : ℕ → String → List String → r.State → r.State
  increment_all now channel_id [] s = s
  increment_all now channel_id (u ∷ us) s =
      increment_all now channel_id us
        (multi r now (unread_key u channel_id) (incr ∷ expire unread_seconds ∷ []) s)

  unfoldable pub increment_unread_many : Client r → List String → String → ℕ → Client r
  increment_unread_many c user_ids channel_id now =
      when_up r c (increment_all now channel_id user_ids)

  unfoldable pub get_unread_count : Client r → String → String → ℕ → ℕ
  get_unread_count c user_id channel_id now = elim c.link [
    | up ↦ counter_of (live now (r.entry c.store (unread_key user_id channel_id)))
    | _ ↦ 0
  ]

  unfoldable pub get_unread_counts : Client r → String → List String → ℕ → List (String × ℕ)
  get_unread_counts c user_id channel_ids now =
      map (λ id. (id, get_unread_count c user_id id now)) channel_ids

  unfoldable pub reset_unread : Client r → String → String → ℕ → Client r
  reset_unread c user_id channel_id now =
      when_up r c (r.run now (unread_key user_id channel_id) del)

  unfoldable pub set_typing : Client r → String → String → ℕ → Client r
  set_typing c channel_id user_id now = when_up r c (
      multi r now (typing_key channel_id)
        (z_add (now + typing_entry_ms) user_id ∷ expire typing_seconds ∷ []))

  unfoldable pub clear_typing : Client r → String → String → ℕ → Client r
  clear_typing c channel_id user_id now =
      when_up r c (r.run now (typing_key channel_id) (z_rem (user_id ∷ [])))

  unfoldable pub get_typing_users : Client r → String → ℕ → Client r × List String
  get_typing_users c channel_id now =
      let k = typing_key channel_id in
      let s = r.run now k (z_rem_up_to now) c.store in
      elim c.link [
        | up ↦ (record c { store = s }, map (λ e. e.1) (sorted_at r now s k))
        | _ ↦ (c, [])
      ]
