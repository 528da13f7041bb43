-- ===== src/Calls/Gateway/Ending/Frees.antt =====
-- A hangup frees both users, calls.gateway.ts.
use zevra_server.Prelude.{
  ℕ, String, Bool, true, false, List, [], Option, none, some, ◌≡◌, refl, sym, ap, subst, false≢true,
}
use zevra_server.Js.{JsValue}
use zevra_server.Errors.Thrown.{Result, ok, thrown}
use zevra_server.Redis.Session.{Client}
use zevra_server.Store.{Backend, World}
use zevra_server.Errors.SocketAck.{SocketErrorAck}
use zevra_server.Calls.State.{ActiveCall, cleanup_call}
use zevra_server.Calls.Gateway.{
  SocketUser, SocketClient, Reply, done, failed, refused, Fresh, user_of, finish,
}
use zevra_server.Calls.Gateway.Steps.{Kept, Finds, on_call-cases, finish-client}
use zevra_server.Calls.Gateway.Ending.{hangup_finished, hangup_found, handle_hangup}
use zevra_server.Calls.State.{get_active_call}
use zevra_server.Calls.State.Lifetime.{Frees, cleanup_call-Frees}
use zevra_server.Calls.Gateway.{done}

abbrev is_done : Reply → Bool
is_done (done fields) = true
is_done (failed code message fields) = false
is_done (refused e) = false

not_done-refused :
    {e : SocketErrorAck} {fields : List (String × JsValue)} → refused e ≡ done fields → ⊥
not_done-refused h = false≢true (ap is_done h)

not_done-failed :
    {code message : String} {more fields : List (String × JsValue)}
    → failed code message more ≡ done fields
    → ⊥
not_done-failed h = false≢true (ap is_done h)

module _ (b : Backend) where
  -- The user was in a call, and its two users are free.
  abbrev pub Ends : ℕ → SocketClient → World b → World b → Type 0
  Ends now client w v =
      (user : SocketUser) × (call : ActiveCall) × (user_of client ≡ some user)
      × (get_active_call b.redis w.client user.id now ≡ some call)
      × Frees b.redis now w.client v.client call

  abbrev EndsIfDone : ℕ → SocketClient → World b → World b × Reply → Type 0
  EndsIfDone now client w x = x.1 ≡ done [] → Ends now client w x.0

  hangup_finished-Ends :
      (client : SocketClient) (w : World b) (user : SocketUser) (c : ActiveCall) (fresh : Fresh)
      (x : World b × Result (Unit {0}))
      → Kept b fresh.now w
      → user_of client ≡ some user
      → get_active_call b.redis w.client user.id fresh.now ≡ some c
      → x.0.client ≡ w.client
      → EndsIfDone fresh.now client w (hangup_finished b user.id c fresh x)
  unfolding hangup_finished
  hangup_finished-Ends client w user c fresh (v, thrown e) m hu h same d =
      absurd (not_done-refused d)
  hangup_finished-Ends client w user c fresh (v, ok _) m hu h same d = (
    user,
    c,
    hu,
    h,
    subst
        (λ (y : Client b.redis).
          Frees b.redis fresh.now w.client (cleanup_call b.redis y c.call_id fresh.now).0 c)
        (sym same) (cleanup_call-Frees b.redis fresh.now w.client user.id c m h),
  )

  hangup_found-Ends :
      (client : SocketClient) (w : World b) (user : SocketUser) (fresh : Fresh)
      (o : Option ActiveCall)
      → Kept b fresh.now w
      → user_of client ≡ some user
      → Finds b fresh.now w user.id o
      → EndsIfDone fresh.now client w (hangup_found b w user fresh o)
  unfolding hangup_found
  hangup_found-Ends client w user fresh none m hu f d = absurd (not_done-failed d)
  hangup_found-Ends client w user fresh (some c) m hu f d =
      hangup_finished-Ends client w user c fresh (finish b w c fresh) m hu (f c refl).0
        (finish-client b w c fresh) d

  -- In a state where every key of a user that holds an id of a call names a call that the user and
  -- another user are in, whose key holds the same id, a hangup that replies success was sent by a
  -- user with an active call. From then on neither user of that call has an active call at any
  -- time, and the active call of every other user is what it would have been, at that time and
  -- later.
  pub handle_hangup-Ends :
      (w : World b) (client : SocketClient) (body : JsValue) (fresh : Fresh)
      → Kept b fresh.now w
      → (handle_hangup b w client body fresh).1 ≡ done []
      → Ends fresh.now client w (handle_hangup b w client body fresh).0
  unfolding handle_hangup
  handle_hangup-Ends w client body fresh m =
      on_call-cases b (EndsIfDone fresh.now client w) w client body fresh.now
        (λ user o. hangup_found b w user fresh o) m (λ e d. absurd (not_done-refused d))
        (λ user o hu f. hangup_found-Ends client w user fresh o m hu f)
