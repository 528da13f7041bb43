-- ===== src/Channels/Direct.antt =====
-- A pair of users has one direct channel, channels.service.ts.
use zevra_server.Prelude.{
  ℕ, ◌≡◌, refl, ◌∙◌, ap, sym, String, Bool, true, false, ◌&&◌, ◌||◌, List, [], ◌∷◌, ◌++◌,
  append-nil, append_assoc, Option, none, some, arith, any, find, Option-cases, inl, inr, ◌⊎◌, ◌==◌,
  eq_iff, eq_refl,
}
use zevra_server.Schema.{Channel, Membership}
use zevra_server.Store.{Backend, World}
use zevra_server.Store.Laws.{find-none}
use zevra_server.Channels.{
  is_membership, new_membership, new_channel, NewIds, summary, CreateChannelResult, has_member,
  insert_members, insert_channel, direct_or_new, create_direct,
}
mod Tests

module _ {A : Type 0} where
  find_cong : (p q : A → Bool) → ((x : A) → p x ≡ q x) → (xs : List A) → find p xs ≡ find q xs
  unfolding find
  find_cong p q h [] = refl
  find_cong p q h (x ∷ xs) = ground (arith, h x, find_cong p q h xs)

  find-last :
      (p : A → Bool) (xs : List A) (y : A)
      → any p xs ≡ false
      → p y ≡ true
      → find p (xs ++ y ∷ []) ≡ some y
  unfolding find any
  find-last p [] y h k = rw k refl
  find-last p (x ∷ xs) y h k = ground (arith, find-last p xs y)

  any-append : (p : A → Bool) (xs ys : List A) → any p (xs ++ ys) ≡ any p xs || any p ys
  unfolding any
  any-append p [] ys = refl
  any-append p (x ∷ xs) ys = ground (arith, any-append p xs ys)

  any-agree :
      (p q r : A → Bool)
      → ((x : A) → r x ≡ false → p x ≡ q x)
      → (xs : List A) → any r xs ≡ false
      → any p xs ≡ any q xs
  unfolding any
  any-agree p q r h [] e = refl
  any-agree p q r h (x ∷ xs) e = ground (arith, h x, any-agree p q r h xs)

eq_false_sym : (x y : String) → (x == y) ≡ false → (y == x) ≡ false
eq_false_sym x y h = ground (arith, eq_iff x y, eq_iff y x)

absent_both : (p q r : Bool) → r || (p && false || (q && false || false)) ≡ r
absent_both p q r = ground arith

module _ (b : Backend) where
  -- The test of the query for a direct channel of the two.
  abbrev is_direct_of : World b → String → String → Channel → Bool
  is_direct_of w u v c = c.type == "DIRECT" && (has_member b w c u && has_member b w c v)

  rows-insert_members :
      (ms : List Membership) (t : b.memberships.State)
      → b.memberships.rows (insert_members b ms t) ≡ b.memberships.rows t ++ ms
  unfolding insert_members
  rows-insert_members [] t = sym (append-nil (b.memberships.rows t))
  rows-insert_members (m ∷ ms) t =
      rows-insert_members ms (b.memberships.insert m t)
      ∙ rw (b.memberships.rows_insert m t) (append_assoc (b.memberships.rows t) (m ∷ []) ms)

  swap : (w : World b) (u v : String) (c : Channel) → is_direct_of w u v c ≡ is_direct_of w v u c
  swap w u v c = ground arith

  module _ (w : World b) (u v : String) (ids : NewIds) (now : ℕ)
      (fresh : any (λ c. c.id == ids.channel) (b.channels.rows w.channels) ≡ false) where
    -- What the first call leaves when no direct channel of the two is there.
    abbrev made : World b × CreateChannelResult
    made = insert_channel b w u (v ∷ []) "DIRECT" none ids now

    abbrev new_rows : List Membership
    new_rows =
        new_membership (ids.membership u) "ADMIN" u ids.channel now
        ∷ new_membership (ids.membership v) "MEMBER" v ids.channel now
        ∷ []

    made-memberships :
        b.memberships.rows made.0.memberships ≡ b.memberships.rows w.memberships ++ new_rows
    unfolding insert_channel
    made-memberships = rows-insert_members new_rows w.memberships

    made-channels :
        b.channels.rows made.0.channels
        ≡ b.channels.rows w.channels ++ new_channel b ids "DIRECT" none now ∷ []
    unfolding insert_channel
    made-channels = b.channels.rows_insert (new_channel b ids "DIRECT" none now) w.channels

    has_member-other :
        (c : Channel) (x : String)
        → (c.id == ids.channel) ≡ false
        → has_member b made.0 c x ≡ has_member b w c x
    unfolding has_member any
    has_member-other c x h = rw made-memberships (
        any-append (is_membership c.id x) (b.memberships.rows w.memberships) new_rows
        ∙ rw (eq_false_sym c.id ids.channel h) (absent_both (u == x) (v == x) (has_member b w c x)))

    has_member-new :
        (x : String)
        → (x ≡ u) ⊎ (x ≡ v)
        → has_member b made.0 (new_channel b ids "DIRECT" none now) x ≡ true
    unfolding has_member any
    has_member-new x h = rw made-memberships (
        any-append (is_membership ids.channel x) (b.memberships.rows w.memberships) new_rows
        ∙ ground (arith, eq_refl u, eq_refl v, eq_refl ids.channel, eq_iff u x, eq_iff v x))

    unchanged :
        any (is_direct_of made.0 v u) (b.channels.rows w.channels)
        ≡ any (is_direct_of w u v) (b.channels.rows w.channels)
    unchanged =
        any-agree (is_direct_of made.0 v u) (is_direct_of w u v) (λ c. c.id == ids.channel)
          (λ c h. rw (has_member-other c u h) (rw (has_member-other c v h) (swap w v u c)))
          (b.channels.rows w.channels) fresh

    found_again :
        find (is_direct_of w u v) (b.channels.rows w.channels) ≡ none
        → find (is_direct_of made.0 v u) (b.channels.rows made.0.channels)
          ≡ some (new_channel b ids "DIRECT" none now)
    found_again h = rw made-channels (
        find-last (is_direct_of made.0 v u) (b.channels.rows w.channels)
          (new_channel b ids "DIRECT" none now)
          (unchanged ∙ find-none (is_direct_of w u v) (b.channels.rows w.channels) h)
          (rw (has_member-new u (inl refl)) (rw (has_member-new v (inr refl)) refl)))

    again_new :
        (ids2 : NewIds) (now2 : ℕ)
        → find (is_direct_of w u v) (b.channels.rows w.channels) ≡ none
        → create_direct b made.0 v u ids2 now2
          ≡ (made.0, record { channel = made.1.channel; created = false })
    unfolding create_direct direct_or_new insert_channel
    again_new ids2 now2 h = ap (direct_or_new b made.0 v u ids2 now2) (found_again h)

  again_old :
      (w : World b) (u v : String) (ids2 : NewIds) (now2 : ℕ) (c : Channel)
      → find (is_direct_of w u v) (b.channels.rows w.channels) ≡ some c
      → create_direct b w v u ids2 now2 ≡ (w, record { channel = summary c; created = false })
  unfolding create_direct direct_or_new
  again_old w u v ids2 now2 c h = ap (direct_or_new b w v u ids2 now2) (
      find_cong (is_direct_of w v u) (is_direct_of w u v) (swap w v u) (b.channels.rows w.channels)
      ∙ h)

  -- After a user has opened a direct channel with another, under an id that no channel has, the
  -- other who opens one with the first gets that same channel as one not created, and nothing
  -- changes.
  pub create_direct-again :
      (w : World b) (u v : String) (ids ids2 : NewIds) (now now2 : ℕ)
      → any (λ c. c.id == ids.channel) (b.channels.rows w.channels) ≡ false
      → create_direct b (create_direct b w u v ids now).0 v u ids2 now2 ≡ (
        (create_direct b w u v ids now).0,
        record { channel = (create_direct b w u v ids now).1.channel; created = false },
      )
  unfolding create_direct direct_or_new
  create_direct-again w u v ids ids2 now now2 fresh =
      elim (Option-cases (find (is_direct_of w u v) (b.channels.rows w.channels))) [
        | inl h ↦ rw h (again_new w u v ids now fresh ids2 now2 h)
        | inr (c, h) ↦ rw h (again_old w u v ids2 now2 c h)
      ]
