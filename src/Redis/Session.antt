-- ===== src/Redis/Session.antt =====
-- src/redis/redis-session.service.ts: live sockets, presence and the queue of offline messages.
pub mod Pending
mod Tests
use zevra_server.Prelude.{
  ℕ, zero, suc, ◌-◌, String, Bool, true, false, List, [], ◌∷◌, Option, none, some, ◌==◌, map,
  length, eqb, if◌then◌else◌,
}
use zevra_server.Redis.{
  Redis, Link, down, failing, up, RedisKey, sockets_key, presence_key, pending_key, sockets_seconds,
  socket_stale_ms, presence_seconds, pending_seconds,
}
use zevra_server.Redis.Values.{
  Entry, Value, text, Command, set_ex, del, expire, z_add, z_rem, z_rem_up_to, live, sorted_of,
  take,
}

-- The text that a key holds.
unfoldable pub text_of : Option Entry → Option String
text_of none = none
text_of (some e) = elim e.value [ text s ↦ some s | _ ↦ none ]

unfoldable pub is_text : String → Option String → Bool
is_text s none = false
is_text s (some t) = t == s

module _ (r : Redis) where
  -- The connection and what the server behind it holds.
  pub record Client : Type 0 where
    pub link : Link
    pub store : r.State

  abbrev pub sorted_at : ℕ → r.State → RedisKey → List (ℕ × String)
  sorted_at now s k = sorted_of (live now (r.entry s k))

  -- `client.multi()…exec()` on one key.
  unfoldable pub multi : ℕ → RedisKey → List Command → r.State → r.State
  multi now k [] s = s
  multi now k (c ∷ cs) s = multi now k cs (r.run now k c s)

  -- The write of a method that only logs a failure.
  unfoldable pub when_up : Client → (r.State → r.State) → Client
  when_up c f = elim c.link [ up ↦ record c { store = f c.store } | _ ↦ c ]

  unfoldable pub add_socket : Client → String → String → ℕ → Client × Option ℕ
  add_socket c user_id socket_id now =
      let k = sockets_key user_id in
      let s =
        multi now k
          (z_rem_up_to (now - socket_stale_ms) ∷ z_add now socket_id ∷ expire sockets_seconds ∷ [])
          c.store in
      elim c.link [
        | up ↦ (record c { store = s }, some (length (sorted_at now s k)))
        | _ ↦ (c, none)
      ]

  unfoldable pub refresh_socket : Client → String → String → ℕ → Client
  refresh_socket c user_id socket_id now =
      when_up c
        (multi now (sockets_key user_id) (z_add now socket_id ∷ expire sockets_seconds ∷ []))

  unfoldable pub remove_socket : Client → String → String → ℕ → Client × Option ℕ
  remove_socket c user_id socket_id now =
      let k = sockets_key user_id in
      let s =
        multi now k (z_rem (socket_id ∷ []) ∷ z_rem_up_to (now - socket_stale_ms) ∷ []) c.store in
      elim c.link [
        | up ↦ (record c { store = s }, some (length (sorted_at now s k)))
        | _ ↦ (c, none)
      ]

  unfoldable pub set_online : Client → String → ℕ → Client
  set_online c user_id now =
      when_up c (r.run now (presence_key user_id) (set_ex presence_seconds (text "online")))

  unfoldable pub set_offline : Client → String → ℕ → Client
  set_offline c user_id now = when_up c (r.run now (presence_key user_id) del)

  unfoldable pub is_online : Client → String → ℕ → Bool
  is_online c user_id now = elim c.link [
    | up ↦ is_text "online" (text_of (live now (r.entry c.store (presence_key user_id))))
    | _ ↦ false
  ]

  -- The users of `userIds` that are added to the set, in order.
  unfoldable pub get_online_users : Client → List String → ℕ → List String
  get_online_users c [] now = []
  get_online_users c (u ∷ us) now =
      let rest = get_online_users c us now in if is_online c u now then u ∷ rest else rest

  -- The loop of `addPendingMessage`; the score is the creation time of the message.
  unfoldable pub queue_for : ℕ → ℕ → String → List String → r.State → r.State
  queue_for now score value [] s = s
  queue_for now score value (u ∷ us) s =
      queue_for now score value us
        (multi now (pending_key u) (z_add score value ∷ expire pending_seconds ∷ []) s)

  unfoldable pub add_pending_message : Client → List String → ℕ → String → ℕ → Client
  add_pending_message c user_ids score value now = when_up c (queue_for now score value user_ids)

  pub record Popped : Type 0 where
    pub client : Client
    pub raw : List String
    pub remaining : ℕ

  -- `zRem` with no member is never sent.
  unfoldable pub pop_entries : Client → ℕ → RedisKey → List String → Popped
  pop_entries c now k [] = record { client = c; raw = []; remaining = 0 }
  pop_entries c now k (m ∷ ms) =
      let s = r.run now k (z_rem (m ∷ ms)) c.store in
      record {
        client = record c { store = s };
        raw = m ∷ ms;
        remaining = length (sorted_at now s k);
      }

  -- `zRange(key, 0, limit - 1)`, where an end of -1 is the last entry.
  unfoldable pub oldest : ℕ → List (ℕ × String) → List (ℕ × String)
  oldest zero l = l
  oldest (suc n) l = take (suc n) l

  unfoldable pub pop_pending : Client → String → ℕ → ℕ → Popped
  pop_pending c user_id limit now =
      let k = pending_key user_id in
      elim c.link [
        | up ↦ pop_entries c now k (map (λ e. e.1) (oldest limit (sorted_at now c.store k)))
        | _ ↦ record { client = c; raw = []; remaining = 0 }
      ]

  -- `JSON.parse` on each entry; those that it refuses are skipped.
  unfoldable pub parse_all {ℓ} : {M : Type ℓ} → (String → Option M) → List String → List M
  parse_all parse [] = []
  parse_all parse (item ∷ raw) =
      let rest = parse_all parse raw in elim (parse item) [ some m ↦ m ∷ rest | none ↦ rest ]
