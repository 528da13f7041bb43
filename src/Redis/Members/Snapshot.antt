-- ===== src/Redis/Members/Snapshot.antt =====
-- The cached set of a channel's members stands for the rows of the table.
use mathlib.Core.Option.{none-ne-some, some-injective}
use mathlib.Core.List.{cons-ne-nil}
use zevra_server.Prelude.{
  ℕ, String, Bool, true, ◌||◌, List, [], ◌∷◌, ◌++◌, Option, none, some, ◌≡◌, refl, ◌∙◌, ap, sym,
  subst, arith, ◌+◌, ◌*◌, any, keep, ◌==◌, eq_iff, Bool-cases, Option-cases, inl, inr, ◌⊎◌,
}
use zevra_server.Schema.{Membership}
use zevra_server.Redis.{Redis, Link, up, down, failing, channel_members_key}
use zevra_server.Redis.Values.{
  Entry, members, live, is_past, members_of, value_of, mem, add_all, del, s_add, expire, effect,
  with_value, with_deadline,
}
use zevra_server.Redis.Laws.{entry-run_self}
use zevra_server.Redis.Session.{Client, multi, when_up}
use zevra_server.Redis.Members.{
  set_members, cached_members, stored_members, or_rebuild, get_members, is_stored, lists, found_in,
  is_member,
}

mem-snoc : (x m : String) (l : List String) → mem x (l ++ m ∷ []) ≡ (mem x l || m == x)
unfolding any
mem-snoc x m [] = ground arith
mem-snoc x m (y ∷ l) = ground (arith, mem-snoc x m l)

mem-add_all : (x : String) (ms l : List String) → mem x (add_all ms l) ≡ (mem x ms || mem x l)
unfolding add_all any
mem-add_all x [] l = refl
mem-add_all x (m ∷ ms) l = elim (Bool-cases (mem m l)) [
  | inl e ↦ rw e (
      mem-add_all x ms l
      ∙ ground (arith, (λ (k : m == x ≡ true). subst (λ y. mem y l ≡ true) ((eq_iff m x).0 k) e)))
  | inr e ↦ rw e (mem-add_all x ms (l ++ m ∷ []) ∙ ground (arith, mem-snoc x m l))
]

mem-stored :
    (r : Redis) (rows : List Membership) (channel_id x : String)
    → mem x (stored_members r rows channel_id) ≡ is_stored r rows channel_id x
unfolding any stored_members keep is_stored
mem-stored r [] channel_id x = refl
mem-stored r (m ∷ rows) channel_id x = ground (arith, mem-stored r rows channel_id x)

live-some : (now : ℕ) (o : Option Entry) (e : Entry) → live now o ≡ some e → o ≡ some e
unfolding live
live-some now none e h = h
live-some now (some d) e h = elim (Bool-cases (is_past now d.deadline)) [
  | inl p ↦ absurd (none-ne-some e (rw p at h))
  | inr p ↦ rw p at h
]

module _ (r : Redis) (rows : List Membership) (channel_id : String) where
  -- A set that is kept for the channel has exactly the members of the table.
  abbrev pub IsSnapshot : Client r → Type 0
  IsSnapshot c =
      (e : Entry)
      → r.entry c.store (channel_members_key channel_id) ≡ some e
      → (x : String) → mem x (members_of (some e)) ≡ is_stored r rows channel_id x

  written :
      (s : r.State) (now seconds : ℕ) (ms : List String)
      → r.entry
          (multi r now (channel_members_key channel_id) (del ∷ s_add ms ∷ expire seconds ∷ []) s)
          (channel_members_key channel_id)
        ≡ some (record { value = members (add_all ms []); deadline = some (now + seconds * 1000) })
  unfolding multi effect with_value with_deadline live is_past members_of value_of
  written s now seconds ms =
      entry-run_self r now (channel_members_key channel_id) (expire seconds) _
      ∙ ap (λ o. effect now (expire seconds) (live now o))
          (entry-run_self r now (channel_members_key channel_id) (s_add ms) _
            ∙ ap (λ o. effect now (s_add ms) (live now o))
                (entry-run_self r now (channel_members_key channel_id) del s))

  snapshot_of :
      (us : List String) (d : Option ℕ) (e : Entry)
      → ((x : String) → mem x us ≡ is_stored r rows channel_id x)
      → some (record { value = members (add_all us []); deadline = d }) ≡ some e
      → (x : String) → mem x (members_of (some e)) ≡ is_stored r rows channel_id x
  unfolding members_of value_of any
  snapshot_of us d e h k x =
      ap (λ (y : Entry). mem x (members_of (some y))) (sym (some-injective _ e k))
      ∙ (mem-add_all x us [] ∙ ground arith)
      ∙ h x

  set_members-IsSnapshot :
      (c : Client r) (us : List String) (now : ℕ)
      → ((x : String) → mem x us ≡ is_stored r rows channel_id x)
      → IsSnapshot c
      → IsSnapshot (set_members r c channel_id us now)
  unfolding set_members when_up
  set_members-IsSnapshot c [] now h k = k
  set_members-IsSnapshot c (u ∷ us) now h k = at_link c.link c.store k
    where
      at_link :
          (l : Link) (s : r.State)
          → IsSnapshot (record { link = l; store = s })
          → IsSnapshot (set_members r (record { link = l; store = s }) channel_id (u ∷ us) now)
      at_link up s k e g =
          snapshot_of (u ∷ us) (some (now + 3600 * 1000)) e h
            (sym (written s now 3600 (u ∷ us)) ∙ g)
      at_link down s k e g = k e g
      at_link failing s k e g = k e g

  -- What a lookup answers is what the table holds, and it leaves a snapshot.
  abbrev pub Refines : Client r × List String → Type 0
  Refines (c, found) = ((x : String) → mem x found ≡ is_stored r rows channel_id x) × IsSnapshot c

  or_rebuild-Refines :
      (c : Client r) (now : ℕ) (l : List String)
      → IsSnapshot c
      → (l ≡ []) ⊎ ((x : String) → mem x l ≡ is_stored r rows channel_id x)
      → Refines (or_rebuild r c rows channel_id now l)
  unfolding or_rebuild
  or_rebuild-Refines c now [] k h = (
    mem-stored r rows channel_id,
    set_members-IsSnapshot c (stored_members r rows channel_id) now (mem-stored r rows channel_id)
        k,
  )
  or_rebuild-Refines c now (m ∷ ms) k (inl e) = absurd (cons-ne-nil m ms e)
  or_rebuild-Refines c now (m ∷ ms) k (inr h) = (h, k)

  cached :
      (l : Link) (s : r.State) (now : ℕ)
      → IsSnapshot (record { link = l; store = s })
      → (cached_members r (record { link = l; store = s }) channel_id now ≡ [])
        ⊎ ((x : String)
            → mem x (cached_members r (record { link = l; store = s }) channel_id now)
              ≡ is_stored r rows channel_id x)
  unfolding cached_members members_of value_of
  cached up s now k = elim (Option-cases (live now (r.entry s (channel_members_key channel_id)))) [
    | inl e ↦ inl (rw e refl)
    | inr (d, e) ↦ inr (λ x.
        ap (λ (o : Option Entry). mem x (members_of o)) e
        ∙ k d (live-some now (r.entry s (channel_members_key channel_id)) d e) x)
  ]
  cached down s now k = inl refl
  cached failing s now k = inl refl

  get_members-Refines :
      (c : Client r) (now : ℕ) → IsSnapshot c → Refines (get_members r c rows channel_id now)
  unfolding get_members
  get_members-Refines c now k =
      or_rebuild-Refines c now (cached_members r c channel_id now) k (cached c.link c.store now k)

  module _ (user_id : String) (now : ℕ) where
    abbrev pub Answers : Client r × Bool → Type 0
    Answers (c, found) = (found ≡ is_stored r rows channel_id user_id) × IsSnapshot c

    lists-Answers : (x : Client r × List String) → Refines x → Answers (lists r user_id x)
    unfolding lists
    lists-Answers (c, l) (h, k) = (h user_id, k)

    found_in-Answers :
        (c : Client r) (o : Option Entry)
        → IsSnapshot c
        → live now (r.entry c.store (channel_members_key channel_id)) ≡ o
        → Answers (found_in r c rows channel_id user_id now o)
    unfolding found_in
    found_in-Answers c none k e =
        lists-Answers (get_members r c rows channel_id now) (get_members-Refines c now k)
    found_in-Answers c (some d) k e =
        (k d (live-some now (r.entry c.store (channel_members_key channel_id)) d e) user_id, k)

    is_member-Answers :
        (l : Link) (s : r.State)
        → IsSnapshot (record { link = l; store = s })
        → Answers (is_member r (record { link = l; store = s }) rows channel_id user_id now)
    unfolding is_member
    is_member-Answers up s k = found_in-Answers (record { link = up; store = s }) _ k refl
    is_member-Answers down s k = (refl, k)
    is_member-Answers failing s k =
        lists-Answers (get_members r (record { link = failing; store = s }) rows channel_id now)
          (get_members-Refines (record { link = failing; store = s }) now k)

    -- If a set that Redis holds for a channel has exactly the members that the table has, then
    -- isMember answers whether the table has a row of the channel and the user, getMembers returns
    -- exactly the table's members of the channel, and after either the set that Redis holds is such
    -- a set again. This is so whether the set is there, has expired or never was, and whether Redis
    -- answers, is down or fails.
    pub members-Refine :
        (c : Client r)
        → IsSnapshot c
        → Answers (is_member r c rows channel_id user_id now)
          × Refines (get_members r c rows channel_id now)
    members-Refine c k = (is_member-Answers c.link c.store k, get_members-Refines c now k)
