-- ===== src/Messages/Tests.antt =====
-- Sending and deleting in a channel of two.
use zevra_server.Prelude.{◌≡◌, refl, true, false, [], ◌∷◌, none, some, arith, keep, find, ◌==◌}
use zevra_server.Js.{null, undefined}
use zevra_server.Schema.{Message}
use zevra_server.Store.{World}
use zevra_server.Store.Concrete.{list_backend, empty_world}
use zevra_server.Errors.Thrown.{ok}
use zevra_server.Messages.Limits.{SendMessageInput}
use zevra_server.Messages.Sending.{Host, Answers, send}
use zevra_server.Messages.Sending.Sequence.{IsContiguous, send-IsContiguous}
use zevra_server.Messages.Deletion.{delete_message, delete_found}
use zevra_server.Messages.Deletion.Erasure.{
  Deletes, IsTidy, delete_message-IsTidy, delete_message-Deletes,
}

abbrev opening : Message
opening = record {
  id = "m1";
  message_type = "TEXT";
  encrypted_content = "x";
  content_iv = "iv";
  content_tag = "t";
  signature = "";
  sequence_number = 1;
  sender_key_epoch = 1;
  metadata = null;
  is_deleted = false;
  created_at = 5;
  updated_at = 5;
  sender_id = "ann";
  channel_id = "c";
}

abbrev chat : World list_backend
chat = record empty_world { messages = opening ∷ [] }

abbrev host : Host
host = record { verify = λ m s k. true; stringify = λ p. p.id }

abbrev answers : Answers
answers = record { connected = some []; queue_accepts = true }

abbrev hello : SendMessageInput
hello = record {
  user_id = "ann";
  channel_id = "c";
  encrypted_content = "y";
  content_iv = "iv";
  content_tag = "t";
  signature = none;
  sender_key_epoch = 1;
  message_type = none;
  metadata = undefined;
}

chat-IsContiguous : IsContiguous (opening ∷ [])
unfolding keep
chat-IsContiguous c = ground arith

send-IsContiguous_example :
    IsContiguous (send list_backend chat host answers hello none "m2" 6).world.messages
send-IsContiguous_example =
    send-IsContiguous list_backend host answers 6 chat hello none "m2" chat-IsContiguous

delete_message-IsTidy_example : IsTidy (delete_message list_backend chat "ann" "m1" 7).0.messages
delete_message-IsTidy_example =
    delete_message-IsTidy list_backend chat "ann" "m1" 7
      ((λ h. ground arith, tt), chat-IsContiguous)

deleted :
    (delete_message list_backend chat "ann" "m1" 7).1
    ≡ ok (record { message_id = "m1"; channel_id = "c" })
unfolding delete_message delete_found find
deleted = refl

delete_message-Deletes_example :
    (m : Message) × (find (λ x. x.id == "m1") (opening ∷ []) ≡ some m)
    × Deletes list_backend chat "ann" "m1" (delete_message list_backend chat "ann" "m1" 7).0 m
delete_message-Deletes_example =
    delete_message-Deletes list_backend chat "ann" "m1" 7
      (record { message_id = "m1"; channel_id = "c" }) deleted
