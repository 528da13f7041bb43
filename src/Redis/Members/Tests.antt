-- ===== src/Redis/Members/Tests.antt =====
-- A channel of one member, not cached.
use mathlib.Core.Option.{none-ne-some}
use zevra_server.Prelude.{[], ◌∷◌, none, false}
use zevra_server.Schema.{Membership}
use zevra_server.Redis.{up}
use zevra_server.Redis.Session.{Client}
use zevra_server.Redis.Members.{get_members, is_member}
use zevra_server.Redis.Members.Snapshot.{Answers, Refines, members-Refine}
use zevra_server.Store.Concrete.{memory_redis}

abbrev cold : Client memory_redis
cold = record { link = up; store = λ k. none }

abbrev ann : Membership
ann = record {
  id = "m1";
  role = "MEMBER";
  joined_at = 1;
  left_at = none;
  muted = false;
  last_read_message_id = none;
  last_read_at = none;
  user_id = "ann";
  channel_id = "c";
}

members-Refine_example :
    Answers memory_redis (ann ∷ []) "c" "ann" 5 (is_member memory_redis cold (ann ∷ []) "c" "ann" 5)
    × Refines memory_redis (ann ∷ []) "c" (get_members memory_redis cold (ann ∷ []) "c" 5)
members-Refine_example =
    members-Refine memory_redis (ann ∷ []) "c" "ann" 5 cold (λ e h. absurd (none-ne-some e h))
