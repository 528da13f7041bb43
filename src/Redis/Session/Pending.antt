-- ===== src/Redis/Session/Pending.antt =====
-- The queue of offline messages.
use zevra_server.Prelude.{
  ℕ, zero, suc, String, ◌≡◌, ◌≢◌, refl, ◌∙◌, ap, sym, List, [], ◌∷◌, ◌++◌, ◌<◌, arith, length,
}
use zevra_server.Redis.{Redis, RedisKey, pending_key, up}
use zevra_server.Redis.Laws.{entry-run_self}
use zevra_server.Redis.Values.{take, drop, live, z_rem, sorted_of, without}
use zevra_server.Redis.Values.Sorted.{
  IsDistinct, names, sorted_of-z_rem, without-take, names-take-drop, without_nil,
}
use zevra_server.Redis.Session.{Client, sorted_at, Popped, pop_pending, pop_entries, oldest}

module _ (r : Redis) where
  abbrev pub queue : ℕ → r.State → String → List (ℕ × String)
  queue now s user_id = sorted_at r now s (pending_key user_id)

  sorted_at-z_rem :
      (now : ℕ) (s : r.State) (k : RedisKey) (ms : List String)
      → sorted_at r now (r.run now k (z_rem ms) s) k ≡ without ms (sorted_at r now s k)
  sorted_at-z_rem now s k ms =
      ap (λ e. sorted_of (live now e)) (entry-run_self r now k (z_rem ms) s)
      ∙ sorted_of-z_rem now (r.entry s k) ms

  -- What is taken is removed, and nothing else is.
  pop_entries_lem :
      (c : Client r) (now : ℕ) (k : RedisKey) (ms : List String)
      → let p = pop_entries r c now k ms in
        (p.raw ≡ ms) × (sorted_at r now p.client.store k ≡ without ms (sorted_at r now c.store k))
  unfolding pop_entries
  pop_entries_lem c now k [] = (refl, sym (without_nil _))
  pop_entries_lem c now k (m ∷ ms) = (refl, sorted_at-z_rem now c.store k (m ∷ ms))

  pop_entries-remaining :
      (c : Client r) (now : ℕ) (k : RedisKey) (l : List (ℕ × String)) (n : ℕ)
      → 0 < n
      → sorted_at r now c.store k ≡ l
      → let p = pop_entries r c now k (names (take n l)) in
        p.remaining ≡ length (sorted_at r now p.client.store k)
  unfolding pop_entries
  pop_entries-remaining c now k l zero h e = elim h [ ]
  pop_entries-remaining c now k [] (suc n) h e = sym (ap length e)
  pop_entries-remaining c now k (x ∷ l) (suc n) h e = refl

  -- `p` is the oldest `n` entries of the queue at `k`, taken off it.
  abbrev pub TakesOldest : ℕ → ℕ → RedisKey → Client r → Popped r → Type 0
  TakesOldest n now k c p =
      (p.raw ≡ names (take n (sorted_at r now c.store k)))
      × (sorted_at r now p.client.store k ≡ drop n (sorted_at r now c.store k))
      × (p.raw ++ names (sorted_at r now p.client.store k) ≡ names (sorted_at r now c.store k))
      × (p.remaining ≡ length (sorted_at r now p.client.store k))

  pop_entries-TakesOldest :
      (c : Client r) (now : ℕ) (k : RedisKey) (n : ℕ)
      → 0 < n
      → IsDistinct (sorted_at r now c.store k)
      → TakesOldest n now k c (pop_entries r c now k (names (take n (sorted_at r now c.store k))))
  pop_entries-TakesOldest c now k n h d =
      let l = sorted_at r now c.store k in
      let (raw, left) = pop_entries_lem c now k (names (take n l)) in
      let rest = left ∙ without-take n l d in
      (raw, rest, rw (raw, rest) (names-take-drop n l), pop_entries-remaining c now k l n h refl)

  -- While Redis answers, popping takes exactly the oldest entries up to a positive limit off a
  -- queue without repeated members, leaves exactly the later ones and reports how many are left.
  pub pop_pending-TakesOldest :
      (c : Client r) (user_id : String) (limit now : ℕ)
      → c.link ≡ up
      → 0 < limit
      → IsDistinct (queue now c.store user_id)
      → TakesOldest limit now (pending_key user_id) c (pop_pending r c user_id limit now)
  unfolding pop_pending oldest
  pop_pending-TakesOldest c user_id zero now e h d = elim h [ ]
  pop_pending-TakesOldest c user_id (suc n) now e h d =
      rw (e, pop_pending) (pop_entries-TakesOldest c now (pending_key user_id) (suc n) h d)

  -- Without Redis popping returns nothing and changes nothing.
  pop_pending_degraded :
      (c : Client r) (user_id : String) (limit now : ℕ)
      → c.link ≢ up
      → pop_pending r c user_id limit now ≡ record { client = c; raw = []; remaining = 0 }
  unfolding pop_pending
  pop_pending_degraded c user_id limit now h = ground arith
