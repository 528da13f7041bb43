-- ===== src/Redis/Session/Tests.antt =====
-- The queue of offline messages on a small store.
use zevra_server.Prelude.{refl, [], ◌∷◌, none, some, arith, any}
use zevra_server.Redis.{pending_key, down, up}
use zevra_server.Redis.Values.{sorted, live, is_past, sorted_of, value_of}
use zevra_server.Redis.Values.Sorted.{IsDistinct}
use zevra_server.Redis.Session.{Client, pop_pending}
use zevra_server.Redis.Session.Pending.{TakesOldest, pop_pending-TakesOldest, queue}
use zevra_server.Store.Concrete.{memory_redis}

abbrev waiting : Client memory_redis
waiting = record {
  link = up;
  store =
      λ k. some (record { value = sorted ((1, "a") ∷ (2, "b") ∷ (3, "c") ∷ []); deadline = none });
}

abbrev cut_off : Client memory_redis
cut_off = record waiting { link = down }

waiting-IsDistinct : IsDistinct (queue memory_redis 5 waiting.store "ann")
unfolding live is_past sorted_of value_of any
waiting-IsDistinct = (refl, (refl, (refl, tt)))

pop_pending-TakesOldest_example :
    TakesOldest memory_redis 2 5
      (pending_key "ann")
      waiting
      (pop_pending memory_redis waiting "ann" 2 5)
pop_pending-TakesOldest_example =
    pop_pending-TakesOldest memory_redis waiting "ann" 2 5 refl (omega arith) waiting-IsDistinct
