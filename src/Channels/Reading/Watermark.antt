-- ===== src/Channels/Reading/Watermark.antt =====
-- The reading mark of a member never falls, channels.service.ts.
use zevra_server.Prelude.{
  ℕ, ◌≤◌, ◌≡◌, refl, ap, sym, subst, String, Bool, true, false, ◌&&◌, List, Option, none, some,
  arith, find, keep, length, ◌==◌, and_true,
}
use mathlib.Core.Option
use zevra_server.Schema.{Membership, Message}
use zevra_server.Store.{Backend, World}
use zevra_server.Store.Pointwise.{Pointwise, Pointwise-refl, Pointwise-update_where}
use zevra_server.Store.Passing.{find-weaker}
use zevra_server.Channels.Reading.{
  or_zero, sequence_of, watermark, may_advance, may_mark, read_to, announce_read, finish_read,
  advance, mark_target, mark_member, mark_read,
}

module _ (b : Backend) where
  abbrev members : World b → List Membership
  members w = b.memberships.rows w.memberships

  -- The primary key of the messages.
  abbrev pub HasUniqueIds : World b → Type 0
  HasUniqueIds w = (id : String) → length (keep (λ m. m.id == id) (b.messages.rows w.messages)) ≤ 1

  -- Row by row, the number of the last message read is no lower.
  abbrev pub NotBack : World b → Membership → Membership → Type 0
  NotBack w x y =
      (x.id ≡ y.id) × (watermark b w x.last_read_message_id ≤ watermark b w y.last_read_message_id)

  announce-memberships :
      (w : World b) (user_id channel_id message_id read_id : String) (now : ℕ) (advanced : Bool)
      → (announce_read b w user_id channel_id message_id read_id now advanced).memberships
        ≡ w.memberships
  unfolding announce_read
  announce-memberships w user_id channel_id message_id read_id now true = refl
  announce-memberships w user_id channel_id message_id read_id now false = refl

  module _ (w : World b) (unique : HasUniqueIds w) (user_id channel_id message_id read_id : String)
      (now : ℕ) where
    below-target :
        (target : ℕ) (o : Option String)
        → may_advance b w target o ≡ true
        → watermark b w o ≤ target
    unfolding may_advance watermark
    below-target target none h = omega arith
    below-target target (some id) h = ground arith

    watermark-target :
        (t : Message)
        → find (λ x. x.id == message_id && x.channel_id == channel_id) (b.messages.rows w.messages)
          ≡ some t
        → watermark b w (some message_id) ≡ t.sequence_number
    unfolding watermark sequence_of
    watermark-target t e =
        ap (λ o. or_zero (Option.map (λ m. m.sequence_number) o))
          (find-weaker (λ x. x.id == message_id) (λ x. x.channel_id == channel_id) t
            (b.messages.rows w.messages) (unique message_id) e)

    due-NotBack :
        (id : String) (t : Message)
        → watermark b w (some message_id) ≡ t.sequence_number
        → (x : Membership) → may_mark b w id t.sequence_number x ≡ true
        → NotBack w x (read_to message_id now x)
    unfolding may_mark
    due-NotBack id t e x h = (
      refl,
      subst (λ n. watermark b w x.last_read_message_id ≤ n) (sym e)
          (below-target t.sequence_number x.last_read_message_id (and_true (x.id == id) _ h).1),
    )

    same-NotBack : (x : Membership) → NotBack w x x
    same-NotBack x = (refl, omega arith)

    advance-NotBack :
        (m : Membership) (t : Message)
        → watermark b w (some message_id) ≡ t.sequence_number
        → (behind : Bool)
        → Pointwise (NotBack w) (members w) (
            members
              (advance b w user_id channel_id message_id read_id now m t.sequence_number behind).0)
    unfolding advance finish_read
    advance-NotBack m t e false =
        subst (λ s. Pointwise (NotBack w) (members w) (b.memberships.rows s))
          (sym (announce-memberships _ user_id channel_id message_id read_id now false))
          (Pointwise-refl (NotBack w) same-NotBack (members w))
    advance-NotBack m t e true =
        subst (λ s. Pointwise (NotBack w) (members w) (b.memberships.rows s))
          (sym (announce-memberships _ user_id channel_id message_id read_id now _))
          (subst (Pointwise (NotBack w) (members w))
            (sym (
              b.memberships.rows_update (may_mark b w m.id t.sequence_number)
                (read_to message_id now) w.memberships))
            (Pointwise-update_where (NotBack w) (may_mark b w m.id t.sequence_number)
              (read_to message_id now) same-NotBack (due-NotBack m.id t e) (members w)))

    target-NotBack :
        (m : Membership) (o : Option Message)
        → find (λ x. x.id == message_id && x.channel_id == channel_id) (b.messages.rows w.messages)
          ≡ o
        → Pointwise
            (NotBack w)
            (members w)
            (members (mark_target b w user_id channel_id message_id read_id now m o).0)
    unfolding mark_target
    target-NotBack m none e = Pointwise-refl (NotBack w) same-NotBack (members w)
    target-NotBack m (some t) e = advance-NotBack m t (watermark-target t e) _

    member-NotBack :
        (o : Option Membership)
        → Pointwise
            (NotBack w)
            (members w)
            (members (mark_member b w user_id channel_id message_id read_id now o).0)
    unfolding mark_member
    member-NotBack none = Pointwise-refl (NotBack w) same-NotBack (members w)
    member-NotBack (some m) = target-NotBack m _ refl

    -- Marking a message as read, accepted or refused, moves no member's mark to a lower sequence
    -- number, when no two messages have one id.
    pub mark_read-NotBack :
        Pointwise
          (NotBack w)
          (members w)
          (members (mark_read b w user_id channel_id message_id read_id now).0)
    unfolding mark_read
    mark_read-NotBack = member-NotBack _
