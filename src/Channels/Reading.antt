-- ===== src/Channels/Reading.antt =====
-- src/modules/channels/channels.service.ts: reading marks, receipts, typing and details.
pub mod Watermark
mod Tests
use mathlib.Core.Option
use zevra_server.Prelude.{
  ℕ, String, Bool, true, false, not, ◌&&◌, List, [], ◌∷◌, Option, none, some, ◌==◌, any, find, keep,
  map, ltb, if◌then◌else◌,
}
use zevra_server.Js.{string, number}
use zevra_server.Schema.{User, Channel, Membership, Message, MessageRead}
use zevra_server.Sockets.{emit_to_channel}
use zevra_server.Redis.Session.{Client}
use zevra_server.Redis.Cache.{reset_unread, get_typing_users}
use zevra_server.Store.{Table, Backend, World, select, select_one, insert_unless}
use zevra_server.Errors.Thrown.{Thrown, Result, ok, thrown, not_found, forbidden}
use zevra_server.Channels.{is_membership, is_in, get_role}

abbrev pub or_zero : Option ℕ → ℕ
or_zero none = 0
or_zero (some n) = n

-- `currentSeq == null || currentSeq < targetSeq`
is_behind : Option ℕ → ℕ → Bool
is_behind none target = true
is_behind (some n) target = ltb n target

abbrev pub read_to : String → ℕ → Membership → Membership
read_to message_id now m = record m {
  last_read_message_id = some message_id;
  last_read_at = some now;
}

module _ (b : Backend) where
  pub sequence_of : World b → String → Option ℕ
  sequence_of w id =
      Option.map (λ m. m.sequence_number) (select_one b.messages (λ m. m.id == id) w.messages)

  -- `COALESCE((SELECT sequence_number …), 0)` of the last message read, 0 if there is none.
  pub watermark : World b → Option String → ℕ
  watermark w none = 0
  watermark w (some id) = or_zero (sequence_of w id)

  -- The condition of the UPDATE on the last message read.
  pub may_advance : World b → ℕ → Option String → Bool
  may_advance w target none = true
  may_advance w target (some id) = ltb (or_zero (sequence_of w id)) target

  pub may_mark : World b → String → ℕ → Membership → Bool
  may_mark w membership_id target m =
      m.id == membership_id && may_advance w target m.last_read_message_id

  -- What is recorded and told when the mark has advanced.
  announce_read : World b → String → String → String → String → ℕ → Bool → World b
  announce_read w user_id channel_id message_id read_id now false = w
  announce_read w user_id channel_id message_id read_id now true = record w {
    message_reads =
        insert_unless b.message_reads (λ r. r.message_id == message_id && r.user_id == user_id)
          (record { id = read_id; message_id = message_id; user_id = user_id; read_at = now })
          w.message_reads;
    socket =
        emit_to_channel w.socket channel_id "message:read"
          (("userId", string user_id)
            ∷ ("messageId", string message_id)
            ∷ ("channelId", string channel_id)
            ∷ ("readAt", number now)
            ∷ [])
          (record { except_socket_id = none; except_user_id = none });
  }

  finish_read : World b → String → String → String → String → ℕ → Bool → World b × Result Bool
  finish_read w user_id channel_id message_id read_id now advanced = (
    announce_read (record w { client = reset_unread b.redis w.client user_id channel_id now })
        user_id channel_id message_id read_id now advanced,
    ok advanced,
  )

  -- The UPDATE is sent when the first query found the mark behind.
  advance :
      World b
      → String
      → String
      → String
      → String
      → ℕ
      → Membership
      → ℕ
      → Bool
      → World b × Result Bool
  advance w user_id channel_id message_id read_id now m target false =
      finish_read w user_id channel_id message_id read_id now false
  advance w user_id channel_id message_id read_id now m target true =
      finish_read
        (record w {
          memberships =
              b.memberships.update (may_mark w m.id target) (read_to message_id now) w.memberships;
        })
        user_id channel_id message_id read_id now
        (any (may_mark w m.id target) (b.memberships.rows w.memberships))

  last_sequence : World b → Membership → Option ℕ
  last_sequence w m = elim m.last_read_message_id [ some id ↦ sequence_of w id | none ↦ none ]

  mark_target :
      World b
      → String
      → String
      → String
      → String
      → ℕ
      → Membership
      → Option Message
      → World b × Result Bool
  unfolding is_behind last_sequence
  mark_target w user_id channel_id message_id read_id now m none =
      (w, thrown (not_found "Message not found in this channel"))
  mark_target w user_id channel_id message_id read_id now m (some target) =
      advance w user_id channel_id message_id read_id now m target.sequence_number
        (is_behind (last_sequence w m) target.sequence_number)

  mark_member :
      World b → String → String → String → String → ℕ → Option Membership → World b × Result Bool
  mark_member w user_id channel_id message_id read_id now none =
      (w, thrown (forbidden "Not a member of this channel"))
  mark_member w user_id channel_id message_id read_id now (some m) =
      mark_target w user_id channel_id message_id read_id now m
        (select_one b.messages (λ x. x.id == message_id && x.channel_id == channel_id) w.messages)

  -- The result tells whether the mark has advanced; `read_id` is the id of a new receipt.
  pub mark_read : World b → String → String → String → String → ℕ → World b × Result Bool
  mark_read w user_id channel_id message_id read_id now =
      mark_member w user_id channel_id message_id read_id now
        (select_one b.memberships (is_membership channel_id user_id) w.memberships)

  -- `assertMember`; an empty role is refused as a missing one.
  assert_member : Option String → Result String
  assert_member none = thrown (forbidden "Not a member of this channel")
  assert_member (some role) =
      if role == "" then thrown (forbidden "Not a member of this channel") else ok role

  typing_if : World b → String → String → ℕ → Result String → World b × Result (List String)
  typing_if w channel_id user_id now (thrown e) = (w, thrown e)
  typing_if w channel_id user_id now (ok role) =
      let found = get_typing_users b.redis w.client channel_id now in
      (record w { client = found.0 }, ok (keep (λ id. not (id == user_id)) found.1))

  pub typing_users : World b → String → String → ℕ → World b × Result (List String)
  unfolding assert_member
  typing_users w channel_id user_id now =
      typing_if w channel_id user_id now (assert_member (get_role b w channel_id user_id))

  receipts : List Membership → List (String × String)
  receipts [] = []
  receipts (m ∷ ms) =
      let rest = receipts ms in
      elim m.last_read_message_id [ some id ↦ (m.user_id, id) ∷ rest | none ↦ rest ]

  receipts_if : World b → String → Result String → Result (List (String × String))
  receipts_if w channel_id (thrown e) = thrown e
  receipts_if w channel_id (ok role) =
      ok (receipts (select b.memberships (is_in channel_id) w.memberships))

  pub get_read_receipts : World b → String → String → Result (List (String × String))
  unfolding assert_member receipts
  get_read_receipts w channel_id user_id =
      receipts_if w channel_id (assert_member (get_role b w channel_id user_id))
