-- ===== src/RateLimit.antt =====
-- src/common/rate-limit, src/shared/rate-limit and src/common/guards/rate-limit.guard.ts: counters of
-- fixed windows, kept in Redis. The script runs as one step of Redis.
pub mod Window
pub mod Expiry
mod Tests
use zevra_server.Prelude.{
  ℕ, ◌+◌, ◌-◌, ◌/◌, String, Bool, true, false, not, ◌&&◌, ◌||◌, List, [], ◌∷◌, ◌++◌, Option, none,
  some, ◌==◌, max, ltb, leb, eqb, if◌then◌else◌,
}
use zevra_server.Redis.{Redis, RedisKey, Link, down, failing, up, rate_limit_key}
use zevra_server.Redis.Values.{Entry, incr, pexpire, live, counter_of, can_count}
use zevra_server.Redis.Session.{Client}

pub record Hit : Type 0 where
  pub count : ℕ
  pub ttl : ℕ

pub record RateLimitResult : Type 0 where
  pub allowed : Bool
  pub count : ℕ
  pub limit : ℕ
  pub reset_ms : ℕ

pub record CheckResult : Type 0 where
  pub allowed : Bool
  pub remaining : ℕ
  pub reset_ms : ℕ

pub record ThrottlerStorageRecord : Type 0 where
  pub total_hits : ℕ
  pub time_to_expire : ℕ
  pub is_blocked : Bool
  pub time_to_block_expire : ℕ

deadline_of : Option Entry → Option ℕ
deadline_of none = none
deadline_of (some e) = e.deadline

-- What `increment` answers to the reply of the script, or to an error.
abbrev pub hit_or : ℕ → Option Hit → Hit
hit_or window_ms none = record { count = 0; ttl = window_ms }
hit_or window_ms (some h) = h

-- What `checkRateLimit` answers to the reply of the script, or to an error.
abbrev pub checked : ℕ → ℕ → Option Hit → CheckResult
checked max_requests now none = record { allowed = true; remaining = max_requests; reset_ms = 0 }
checked max_requests now (some h) = record {
  allowed = leb h.count max_requests;
  remaining = max_requests - h.count;
  reset_ms = now + h.ttl;
}

module _ (r : Redis) where
  -- What the script does after INCR: the first hit, or one that finds no time to live, opens a window.
  unfoldable pub window_from : ℕ → RedisKey → ℕ → r.State → ℕ → Option ℕ → r.State × Hit
  window_from now k window_ms s count none =
      (r.run now k (pexpire window_ms) s, record { count = count; ttl = window_ms })
  window_from now k window_ms s count (some deadline) =
      if eqb count 1
      then (r.run now k (pexpire window_ms) s, record { count = count; ttl = window_ms })
      else (s, record { count = count; ttl = deadline - now })

  -- The whole script; without a number to count, INCR is an error that ends it.
  unfoldable pub fixed_window : ℕ → RedisKey → ℕ → r.State → r.State × Option Hit
  unfolding deadline_of
  fixed_window now k window_ms s =
      let counted = r.run now k incr s in
      let entry = live now (r.entry counted k) in
      let done = window_from now k window_ms counted (counter_of entry) (deadline_of entry) in
      if can_count (live now (r.entry s k)) then (done.0, some done.1) else (s, none)

  -- Without an answer of Redis, or with an error, no hit is counted.
  pub increment : Client r → RedisKey → ℕ → ℕ → Client r × Hit
  increment c k window_ms now =
      let done = fixed_window now k (max 1 window_ms) c.store in
      elim c.link [
        | up ↦ (record c { store = done.0 }, hit_or window_ms done.1)
        | _ ↦ (c, hit_or window_ms none)
      ]

  pub hit : Client r → String → String → ℕ → ℕ → ℕ → Client r × RateLimitResult
  hit c scope id limit window_ms now =
      let (d, h) = increment c (rate_limit_key scope id) window_ms now in
      (d, record { allowed = leb h.count limit; count = h.count; limit = limit; reset_ms = h.ttl })

  unfoldable pub check_rate_limit : Client r → RedisKey → ℕ → ℕ → ℕ → Client r × CheckResult
  check_rate_limit c k window_ms max_requests now =
      let done = fixed_window now k window_ms c.store in
      elim c.link [
        | up ↦ (record c { store = done.0 }, checked max_requests now done.1)
        | _ ↦ (c, checked max_requests now none)
      ]

  -- RedisThrottlerStorage.increment; the times are whole seconds, rounded up.
  pub throttle : Client r → RedisKey → ℕ → ℕ → ℕ → Client r × ThrottlerStorageRecord
  throttle c k ttl limit now =
      let (d, h) = increment c k ttl now in
      let seconds = (h.ttl + 999) / 1000 in
      (
        d,
        record {
          total_hits = h.count;
          time_to_expire = seconds;
          is_blocked = ltb limit h.count;
          time_to_block_expire = if ltb limit h.count then seconds else 0;
        },
      )

  -- The loop of the guard over its keys; it stops at the first that is over the limit.
  pub allow_all : Client r → String → ℕ → ℕ → ℕ → List String → Client r × Bool
  allow_all c scope limit window_ms now [] = (c, true)
  allow_all c scope limit window_ms now (id ∷ ids) =
      let (d, result) = hit c scope id limit window_ms now in
      let rest = allow_all d scope limit window_ms now ids in
      if result.allowed then rest else (d, false)
