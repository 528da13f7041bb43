-- ===== src/RateLimit/Tests.antt =====
-- A limit of two hits a second.
use zevra_server.Prelude.{
  ◌≡◌, refl, [], ◌∷◌, Option, none, some, true, false, ◌⊎◌, arith, leb, length, keep,
}
use zevra_server.Redis.{RedisKey, rate_limit_key}
use zevra_server.Redis.Values.{Entry, counter, live, can_count}
use zevra_server.Store.Concrete.{memory_redis}
use zevra_server.RateLimit.{Hit, fixed_window}
use zevra_server.RateLimit.Window.{counts, fixed_window-AllowsLimit}
use zevra_server.RateLimit.Expiry.{Expires, fixed_window-Expires}

abbrev k : RedisKey
k = rate_limit_key "login" "ann"

abbrev empty : RedisKey → Option Entry
empty j = none

-- A counter that lost its time to live.
abbrev stuck : RedisKey → Option Entry
stuck j = some (record { value = counter 7; deadline = none })

empty-live : live 5 (empty k) ≡ none
unfolding live
empty-live = refl

fixed_window-AllowsLimit_example :
    length (keep (λ c. leb c 2) (counts memory_redis k 1000 (5 ∷ 6 ∷ 700 ∷ 1004 ∷ []) empty)) ≡ 2
fixed_window-AllowsLimit_example =
    fixed_window-AllowsLimit memory_redis k 1000 2 5 (6 ∷ 700 ∷ 1004 ∷ []) empty (omega arith)
      empty-live (omega arith, (omega arith, (omega arith, tt)))

abbrev stuck_hit : (RedisKey → Option Entry) × Option Hit
stuck_hit = fixed_window memory_redis 5 k 1000 stuck

fixed_window-Expires_example :
    ((can_count (live 5 (stuck k)) ≡ true)
      × Expires memory_redis 5 k stuck_hit.0
      × ((h : Hit) × (stuck_hit.1 ≡ some h)))
    ⊎ ((can_count (live 5 (stuck k)) ≡ false) × (stuck_hit ≡ (stuck, none)))
fixed_window-Expires_example = fixed_window-Expires memory_redis 5 k 1000 stuck
