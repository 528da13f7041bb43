-- ===== src/Store/Concrete.antt =====
-- Tables kept as lists and a Redis kept as a function: an instance of what the server assumes.
use zevra_server.Prelude.{
  true, not, List, [], ◌∷◌, ◌++◌, Option, none, refl, keep, update_where, if◌then◌else◌,
}
use zevra_server.Redis.{Redis, RedisKey, same_key, up}
use zevra_server.Redis.Values.{Entry, effect, live}
use zevra_server.Store.{Table, Backend, World}

abbrev pub list_table : (Row : Type 0) → Table Row
list_table Row = record {
  State = List Row;
  rows = λ s. s;
  insert = λ r s. s ++ r ∷ [];
  update = λ p f s. update_where p f s;
  delete = λ p s. keep (λ r. not (p r)) s;
  rows_insert = λ r s. refl;
  rows_update = λ p f s. refl;
  rows_delete = λ p s. refl;
}

abbrev pub memory_redis : Redis
memory_redis = record {
  State = RedisKey → Option Entry;
  entry = λ s k. s k;
  run = λ now k c s j. if same_key k j then effect now c (live now (s k)) else s j;
  entry_run = λ now k c s j. refl;
}

abbrev pub list_backend : Backend
list_backend = record {
  users = list_table _;
  channels = list_table _;
  memberships = list_table _;
  messages = list_table _;
  sender_keys = list_table _;
  message_reads = list_table _;
  refresh_tokens = list_table _;
  audit_log = list_table _;
  reactions = list_table _;
  call_logs = list_table _;
  call_participants = list_table _;
  redis = memory_redis;
}

abbrev pub empty_world : World list_backend
empty_world = record {
  users = [];
  channels = [];
  memberships = [];
  messages = [];
  sender_keys = [];
  message_reads = [];
  refresh_tokens = [];
  audit_log = [];
  reactions = [];
  call_logs = [];
  call_participants = [];
  client = record { link = up; store = λ k. none };
  socket = record { server = true; outbox = [] };
}
