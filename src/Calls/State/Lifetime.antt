-- ===== src/Calls/State/Lifetime.antt =====
-- How long a call lasts for its users, calls.service.ts.
use mathlib.Core.Option.{none-ne-some}
use zevra_server.Prelude.{
  ℕ, ◌+◌, ◌≤◌, String, false, List, [], none, some, ◌≡◌, refl, ◌∙◌, ap, sym, ◌==◌, eq_iff, eq_refl,
  leb, keep, if◌then◌else◌, Option-cases, Bool-cases, inl, inr, ◌⊎◌,
}
use zevra_server.Js.Decimal.{number_of-decimal}
use zevra_server.Errors.Thrown.{ok}
use zevra_server.Redis.{Redis, Link, up, down, failing}
use zevra_server.Redis.Session.{Client}
use zevra_server.Redis.Values.{set_fields}
use zevra_server.Calls.State.{
  ActiveCall, field_of, to_call, to_active_call, new_call, ringing_fields, call_of, active,
  get_active_call, create_call, cleanup_call, write_call, delete_call,
}
use zevra_server.Calls.State.Views.{
  named, fields, named-write_call, fields-write_call, named-delete_call, fields-delete_call,
}
use zevra_server.Calls.State.Entries.{until, text_of_mono}
use zevra_server.Calls.State.Mutual.{IsMutual}
use zevra_server.Calls.State.Writes.{if-either}
use zevra_server.Calls.State.Active.{IsCallOf, IsCallOf-others, active-IsCallOf}
use zevra_server.Calls.State.Users.{IsNewCall}

module _ (r : Redis) (t : ℕ) (s : r.State) where
  active-unnamed : (u : String) → named r t s u ≡ none → active r t s u ≡ none
  unfolding active call_of
  active-unnamed u h = rw h refl

  -- The active call depends on the name of the user and the fields of the named call.
  active-same :
      (s' : r.State) (u : String)
      → named r t s' u ≡ named r t s u
      → ((id : String) → named r t s u ≡ some id → fields r t s' id ≡ fields r t s id)
      → active r t s' u ≡ active r t s u
  unfolding active call_of
  active-same s' u name same = rw name (elim (Option-cases (named r t s u)) [
    | inl e ↦ rw e refl
    | inr (id, e) ↦ rw e (rw (same id e) refl)
  ])

  active-named-fields :
      (u id : String) (fs : List (String × String))
      → named r t s u ≡ some id
      → (id == "") ≡ false
      → fields r t s id ≡ fs
      → (field_of "initiatorId" fs == "") ≡ false
      → active r t s u ≡ some (to_call id fs)
  unfolding active call_of to_active_call
  active-named-fields u id fs h full f init = rw h (rw full (rw f (rw init refl)))

-- What `createCall` wrote reads back as the call, until its time is over.
module _ (r : Redis) (now : ℕ) (s : r.State) (a b log_id id : String) (full : (id == "") ≡ false)
    (initiator : (a == "") ≡ false) (logged : (log_id == "") ≡ false)
    (empty : fields r now s id ≡ []) where
  abbrev call : ActiveCall
  call = new_call a b (some log_id) id now

  to_call-ringing : to_call id (ringing_fields call now) ≡ call
  unfolding field_of
  to_call-ringing = rw (number_of-decimal now) (rw logged refl)

  ringing_fields-early :
      (t : ℕ)
      → leb (now + 120000) t ≡ false
      → fields r t (write_call r call now s) id ≡ ringing_fields call now
  unfolding set_fields keep
  ringing_fields-early t early =
      fields-write_call r now t s call id ∙ rw (eq_refl id) (rw early (rw empty refl))

  ringing_name :
      (t : ℕ) (u : String)
      → (a ≡ u) ⊎ (b ≡ u)
      → named r t (write_call r call now s) u ≡ until t (now + 120000) none (some id)
  ringing_name t u m = named-write_call r now t s call u ∙ if-either a b u m _ _

  pub ringing_active :
      (t : ℕ) (u : String)
      → (a ≡ u) ⊎ (b ≡ u)
      → active r t (write_call r call now s) u ≡ until t (now + 120000) none (some call)
  unfolding field_of
  ringing_active t u m = elim (Bool-cases (leb (now + 120000) t)) [
    | inl over ↦
        active-unnamed r t (write_call r call now s) u (ringing_name t u m ∙ rw over refl)
        ∙ rw over refl
    | inr early ↦
        active-named-fields r t (write_call r call now s) u id (ringing_fields call now)
          (ringing_name t u m ∙ rw early refl) full (ringing_fields-early t early) initiator
        ∙ ap some to_call-ringing
        ∙ rw early refl
  ]

-- The end of a call frees its users and nobody else.
module _ (r : Redis) (now : ℕ) (s : r.State) (u : String) (c : ActiveCall) (m : IsMutual r now s)
    (h : IsCallOf r now s u c) where
  abbrev ended : r.State
  ended = delete_call r c.call_id (fields r now s c.call_id) now s

  named-ended :
      (t : ℕ) (x : String)
      → named r t ended x
        ≡ (if c.target_id == x then none else if c.initiator_id == x then none else named r t s x)
  named-ended t x =
      let (_, p1, p2, _, _, _, _) = h.2 in
      named-delete_call r now t s c.call_id (fields r now s c.call_id) x p2 p1
      ∙ ap
          (λ (y : ActiveCall).
            if y.target_id == x then none else if y.initiator_id == x then none else named r t s x)
          h.1

  pub ended-frees :
      (t : ℕ) (x : String) → (c.initiator_id ≡ x) ⊎ (c.target_id ≡ x) → active r t ended x ≡ none
  ended-frees t x e =
      active-unnamed r t ended x (named-ended t x ∙ if-either c.initiator_id c.target_id x e _ _)

  pub ended-others :
      (t : ℕ) (x : String)
      → now ≤ t
      → (c.initiator_id == x) ≡ false
      → (c.target_id == x) ≡ false
      → active r t ended x ≡ active r t s x
  ended-others t x le ha hb =
      active-same r t s ended x (named-ended t x ∙ rw hb (rw ha refl)) (λ id k.
        fields-delete_call r now t s c.call_id (fields r now s c.call_id) id ∙ rw (apart id k) refl)
    where
      apart : (id : String) → named r t s x ≡ some id → (c.call_id == id) ≡ false
      apart id k = elim (Bool-cases (c.call_id == id)) [
        | inr e ↦ e
        | inl e ↦ absurd (
            IsCallOf-others r now s u c h m x ha hb
              (text_of_mono now t _ c.call_id le (k ∙ ap some (sym ((eq_iff c.call_id id).0 e)))))
      ]

-- What the operations do while Redis answers.
module _ (r : Redis) (now : ℕ) where
  abbrev pub answering : r.State → Client r
  answering s = record { link = up; store = s }

  -- While Redis answers, a call with a new id, from a user whose id is not empty and with a row
  -- whose id is not empty, is read back for both of its users as the call that was created, its
  -- time of start included, until 120 s after it, and as none from then on.
  pub create_call-Rings :
      (s : r.State) (a b log_id id : String) (t : ℕ)
      → IsNewCall r now s id
      → (a == "") ≡ false
      → (log_id == "") ≡ false
      → let (c, result) = create_call r (answering s) a b (some log_id) id now in
        let call = new_call a b (some log_id) id now in
        (result ≡ ok call)
        × (get_active_call r c a t ≡ (if leb (now + 120000) t then none else some call))
        × (get_active_call r c b t ≡ (if leb (now + 120000) t then none else some call))
  unfolding create_call get_active_call
  create_call-Rings s a b log_id id t (full, _, empty) ha hl =
      let rings = ringing_active r now s a b log_id id full ha hl empty t in
      (refl, rings a (inl refl), rings b (inr refl))

  -- Both users of the call are free from now on, and everybody else is where they were.
  abbrev pub Frees : Client r → Client r → ActiveCall → Type 0
  Frees c d call =
      ((t : ℕ) (x : String)
        → (call.initiator_id ≡ x) ⊎ (call.target_id ≡ x)
        → get_active_call r d x t ≡ none)
      × ((t : ℕ) (x : String)
          → now ≤ t
          → (call.initiator_id == x) ≡ false
          → (call.target_id == x) ≡ false
          → get_active_call r d x t ≡ get_active_call r c x t)

  pub cleanup_call-Frees :
      (c : Client r) (u : String) (call : ActiveCall)
      → IsMutual r now c.store
      → get_active_call r c u now ≡ some call
      → Frees c (cleanup_call r c call.call_id now).0 call
  unfolding cleanup_call get_active_call
  cleanup_call-Frees c u call m h = at_link c.link c.store m h
    where
      at_link :
          (l : Link) (s : r.State)
          → IsMutual r now s
          → get_active_call r (record { link = l; store = s }) u now ≡ some call
          → Frees
              (record { link = l; store = s })
              (cleanup_call r (record { link = l; store = s }) call.call_id now).0
              call
      at_link up s m h =
          let is_call = active-IsCallOf r now s m u call h in
          (
            λ t x e. ended-frees r now s u call m is_call t x e,
            λ t x le ha hb. ended-others r now s u call m is_call t x le ha hb,
          )
      at_link down s m h = absurd (none-ne-some call h)
      at_link failing s m h = absurd (none-ne-some call h)
