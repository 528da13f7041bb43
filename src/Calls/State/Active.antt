-- ===== src/Calls/State/Active.antt =====
-- The active call of a user and the names behind it, calls.service.ts.
use mathlib.Core.Option.{none-ne-some, some-injective}
use zevra_server.Prelude.{
  ℕ, String, true, false, ◌||◌, Option, none, some, ◌≡◌, refl, ◌∙◌, ap, sym, subst, arith, ◌==◌,
  Option-cases, Bool-cases, inl, inr,
}
use zevra_server.Redis.Laws.{by_link}
use zevra_server.Redis.{Redis, Link, up, down, failing}
use zevra_server.Redis.Session.{Client, when_up}
use zevra_server.Calls.State.{
  ActiveCall, field_of, to_call, to_active_call, call_of, active, get_active_call, accept_call,
  cleanup_call, write_accepted, delete_call,
}
use zevra_server.Calls.State.Views.{named, fields}
use zevra_server.Calls.State.Mutual.{Joins, IsMutual}
use zevra_server.Calls.State.Writes.{others_out, write_accepted-IsMutual, delete_call-IsMutual}

-- `c` is the call that the key of `u` names, as its fields say, and it joins `u` with another.
abbrev pub IsCallOf : (r : Redis) → ℕ → r.State → String → ActiveCall → Type 0
IsCallOf r now s u c =
    (named r now s u ≡ some c.call_id)
    × (to_call c.call_id (fields r now s c.call_id) ≡ c)
    × Joins (named r now s) (fields r now s c.call_id) u c.call_id

module _ (r : Redis) (now : ℕ) (s : r.State) where
  pub active-named :
      (u id : String)
      → named r now s u ≡ some id
      → Joins (named r now s) (fields r now s id) u id
      → active r now s u ≡ some (to_call id (fields r now s id))
  unfolding active to_active_call
  active-named u id h j = rw h (rw j.0 (rw j.1 refl))

  pub not_active-named :
      IsMutual r now s → (u : String) → active r now s u ≡ none → named r now s u ≡ none
  not_active-named m u h = elim (Option-cases (named r now s u)) [
    | inl e ↦ e
    | inr (id, e) ↦
        absurd (none-ne-some _ (sym h ∙ active-named u id e (m now (omega arith) u id e)))
  ]

  -- The call found under a name.
  call_of-some :
      (o : Option String) (c : ActiveCall)
      → call_of r now s o ≡ some c
      → (o ≡ some c.call_id) × (to_call c.call_id (fields r now s c.call_id) ≡ c)
  unfolding call_of to_active_call
  call_of-some none c h = absurd (none-ne-some c h)
  call_of-some (some id) c h = elim (Bool-cases (id == "")) [
    | inl e ↦ absurd (none-ne-some c (rw e at h))
    | inr e ↦ elim (Bool-cases (field_of "initiatorId" (fields r now s id) == "")) [
      | inl e' ↦ absurd (none-ne-some c (rw e' at (rw e at h)))
      | inr e' ↦
          let same : to_call id (fields r now s id) ≡ c =
            some-injective _ c (rw e' at (rw e at h)) in
          let same_id : c.call_id ≡ id = sym (ap (λ (x : ActiveCall). x.call_id) same) in
          (ap some (sym same_id), (λ i. to_call (same_id i) (fields r now s (same_id i))) ∙ same)
    ]
  ]

  pub active-IsCallOf :
      IsMutual r now s
      → (u : String) (c : ActiveCall) → active r now s u ≡ some c
      → IsCallOf r now s u c
  unfolding active
  active-IsCallOf m u c h =
      let (name, call) = call_of-some (named r now s u) c h in
      (name, call, m now (omega arith) u c.call_id name)

-- The same of the users that the call carries.
abbrev pub JoinsOwn : (r : Redis) → ℕ → r.State → String → ActiveCall → Type 0
JoinsOwn r now s u c =
    ((c.call_id == "") ≡ false)
    × ((c.initiator_id == "") ≡ false)
    × ((c.target_id == "") ≡ false)
    × ((c.initiator_id == c.target_id) ≡ false)
    × ((c.initiator_id == u) || (c.target_id == u) ≡ true)
    × (named r now s c.initiator_id ≡ some c.call_id)
    × (named r now s c.target_id ≡ some c.call_id)

module _ (r : Redis) (now : ℕ) (s : r.State) (u : String) (c : ActiveCall)
    (h : IsCallOf r now s u c) where
  is_initiator : field_of "initiatorId" (fields r now s c.call_id) ≡ c.initiator_id
  is_initiator = ap (λ (x : ActiveCall). x.initiator_id) h.1

  is_target : field_of "targetId" (fields r now s c.call_id) ≡ c.target_id
  is_target = ap (λ (x : ActiveCall). x.target_id) h.1

  pub IsCallOf-own : JoinsOwn r now s u c
  IsCallOf-own =
      subst
        (λ (x : ActiveCall).
          ((c.call_id == "") ≡ false)
          × ((x.initiator_id == "") ≡ false)
          × ((x.target_id == "") ≡ false)
          × ((x.initiator_id == x.target_id) ≡ false)
          × ((x.initiator_id == u) || (x.target_id == u) ≡ true)
          × (named r now s x.initiator_id ≡ some c.call_id)
          × (named r now s x.target_id ≡ some c.call_id))
        h.1 h.2

  pub accepted-IsMutual : IsMutual r now s → IsMutual r now (write_accepted r c now s)
  accepted-IsMutual m =
      let (p0, p1, p2, p3, _, p5, p6) = IsCallOf-own in
      write_accepted-IsMutual r now s c p0 p1 p2 p3 m p5 p6 is_initiator is_target

  pub deleted-IsMutual :
      IsMutual r now s → IsMutual r now (delete_call r c.call_id (fields r now s c.call_id) now s)
  deleted-IsMutual m =
      let (p0, p1, p2, p3, _, p5, p6) = IsCallOf-own in
      delete_call-IsMutual r now s c p0 p1 p2 p3 m p5 p6 is_initiator is_target

  pub IsCallOf-others :
      IsMutual r now s
      → (x : String) → (c.initiator_id == x) ≡ false
      → (c.target_id == x) ≡ false
      → named r now s x ≡ some c.call_id
      → ⊥
  IsCallOf-others m =
      let (p0, p1, p2, p3, _, p5, p6) = IsCallOf-own in
      others_out r now s c p0 p1 p2 p3 m p5 p6 is_initiator is_target

-- The same of the operations on a client, whatever the state of the link.
module _ (r : Redis) (now : ℕ) (c : Client r) (m : IsMutual r now c.store) where
  pub get_active_call-IsCallOf :
      (u : String) (call : ActiveCall)
      → get_active_call r c u now ≡ some call
      → IsCallOf r now c.store u call
  unfolding get_active_call
  get_active_call-IsCallOf u call h = at_link c.link h
    where
      at_link :
          (l : Link)
          → (let o : Option ActiveCall = elim l [ up ↦ active r now c.store u | _ ↦ none ] in o)
            ≡ some call
          → IsCallOf r now c.store u call
      at_link up h = active-IsCallOf r now c.store m u call h
      at_link down h = absurd (none-ne-some call h)
      at_link failing h = absurd (none-ne-some call h)

  pub accept_call-IsMutual :
      (u : String) (call : ActiveCall)
      → IsCallOf r now c.store u call
      → IsMutual r now (accept_call r c call now).store
  unfolding accept_call when_up
  accept_call-IsMutual u call h =
      by_link (λ (d : Client r). IsMutual r now d.store)
        (accepted-IsMutual r now c.store u call h m) m c.link

  pub cleanup_call-IsMutual :
      (u : String) (call : ActiveCall)
      → IsCallOf r now c.store u call
      → IsMutual r now (cleanup_call r c call.call_id now).0.store
  unfolding cleanup_call
  cleanup_call-IsMutual u call h =
      by_link (λ (d : Client r × Option ActiveCall). IsMutual r now d.0.store)
        (deleted-IsMutual r now c.store u call h m) m c.link
