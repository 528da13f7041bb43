-- ===== src/Channels/Reading/Tests.antt =====
-- A member that reads one of two messages.
use zevra_server.Prelude.{◌≡◌, refl, true, false, [], ◌∷◌, arith, keep, any, find}
use zevra_server.Js.{null}
use zevra_server.Schema.{Message}
use zevra_server.Store.{World}
use zevra_server.Store.Pointwise.{Pointwise}
use zevra_server.Store.Concrete.{list_backend, empty_world}
use zevra_server.Errors.Thrown.{ok}
use zevra_server.Channels.{new_membership}
use zevra_server.Channels.Reading.{
  mark_read, mark_member, mark_target, advance, finish_read, is_behind, last_sequence, may_mark,
  may_advance,
}
use zevra_server.Channels.Reading.Watermark.{HasUniqueIds, NotBack, mark_read-NotBack}

abbrev opening : Message
opening = record {
  id = "m1";
  message_type = "TEXT";
  encrypted_content = "x";
  content_iv = "iv";
  content_tag = "t";
  signature = "";
  sequence_number = 1;
  sender_key_epoch = 1;
  metadata = null;
  is_deleted = false;
  created_at = 5;
  updated_at = 5;
  sender_id = "ann";
  channel_id = "c";
}

abbrev chat : World list_backend
chat = record empty_world {
  messages = opening ∷ [];
  memberships = new_membership "k1" "MEMBER" "bob" "c" 1 ∷ [];
}

chat-HasUniqueIds : HasUniqueIds list_backend chat
unfolding keep
chat-HasUniqueIds id = ground arith

bob_reads : (mark_read list_backend chat "bob" "c" "m1" "r1" 9).1 ≡ ok true
unfolding mark_read mark_member mark_target advance finish_read is_behind last_sequence may_mark
    may_advance find any
bob_reads = refl

mark_read-NotBack_example :
    Pointwise
      (NotBack list_backend chat)
      chat.memberships
      (mark_read list_backend chat "bob" "c" "m1" "r1" 9).0.memberships
mark_read-NotBack_example =
    mark_read-NotBack list_backend chat chat-HasUniqueIds "bob" "c" "m1" "r1" 9
