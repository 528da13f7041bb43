-- ===== src/Redis/Cache/Tests.antt =====
-- A message cached after two others.
use zevra_server.Prelude.{◌+◌, ◌-◌, ◌≤◌, ◌≡◌, refl, [], ◌∷◌, ◌++◌, some, length}
use zevra_server.Redis.{up}
use zevra_server.Redis.Values.{items, drop}
use zevra_server.Redis.Session.{Client}
use zevra_server.Redis.Cache.{cache_message}
use zevra_server.Redis.Cache.Bounded.{cached, cache_message-Trims}
use zevra_server.Store.Concrete.{memory_redis}

abbrev recent : Client memory_redis
recent = record {
  link = up;
  store = λ k. some (record { value = items ("a" ∷ "b" ∷ []); deadline = some 100 });
}

cache_message-Trims_example :
    let old = cached memory_redis 5 recent "c" in
    let new = cached memory_redis 5 (cache_message memory_redis recent "c" "x" 5) "c" in
    (new ≡ drop (length old + 1 - 50) old ++ "x" ∷ []) × (length new ≤ 50)
cache_message-Trims_example = cache_message-Trims memory_redis recent "c" "x" 5 refl
