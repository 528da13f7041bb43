-- ===== src/Calls/Logs/Client.antt =====
-- The rows of calls are written to Postgres alone, calls.service.ts.
use zevra_server.Prelude.{ℕ, String, Option, none, some, ◌≡◌, refl, arith}
use zevra_server.Errors.Thrown.{Result, ok, thrown}
use zevra_server.Store.{Backend, World}
use zevra_server.Calls.Logs.{LogInput, create_call_log, insert_log, end_call_log, add_participants}

module _ (b : Backend) where
  insert_log-client :
      (w : World b) (input : LogInput) (id : String) (now : ℕ) (x y z : Result (Option String))
      → (insert_log b w input id now x y z).0.client ≡ w.client
  unfolding insert_log
  insert_log-client w input id now (ok x) (ok y) (ok z) = refl
  insert_log-client w input id now (thrown e) y z = refl
  insert_log-client w input id now (ok x) (thrown e) z = refl
  insert_log-client w input id now (ok x) (ok y) (thrown e) = refl

  pub create_call_log-client :
      (w : World b) (input : LogInput) (id : String) (now : ℕ)
      → (create_call_log b w input id now).0.client ≡ w.client
  unfolding create_call_log
  create_call_log-client w input id now = insert_log-client w input id now _ _ _

  pub end_call_log-client :
      (w : World b) (log_id caller callee : String) (started : Option ℕ) (ids : String → String)
      (now : ℕ)
      → (end_call_log b w log_id caller callee started ids now).0.client ≡ w.client
  unfolding end_call_log add_participants
  end_call_log-client w log_id caller callee none ids now = refl
  end_call_log-client w log_id caller callee (some t) ids now = ground arith
