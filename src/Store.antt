-- ===== src/Store.antt =====
-- What the server assumes of Postgres, and the state that the services share.
pub mod Laws
pub mod Passing
pub mod Pointwise
pub mod Concrete
use zevra_server.Prelude.{
  ℕ, Bool, List, [], ◌∷◌, ◌++◌, ◌≡◌, not, keep, update_where, any, find, if◌then◌else◌, Option, map,
}
use zevra_server.Schema.{
  User, Channel, Membership, Message, SenderKey, MessageRead, RefreshToken, AuditLog, Reaction,
  CallLog, CallParticipant,
}
use zevra_server.Sockets.{SocketService}
use zevra_server.Redis.{Redis}
use zevra_server.Redis.Session.{Client}

-- A table: the statements that the server sends, and what SQL documents of them. `rows` lists the
-- table in the order of insertion, which a query without ORDER BY is taken to follow.
pub record Table (Row : Type 0) : Type 1 where
  pub State : Type 0
  pub rows : State → List Row
  pub insert : Row → State → State
  pub update : (Row → Bool) → (Row → Row) → State → State
  pub delete : (Row → Bool) → State → State
  pub rows_insert : (r : Row) (s : State) → rows (insert r s) ≡ rows s ++ r ∷ []
  pub rows_update :
      (p : Row → Bool) (f : Row → Row) (s : State) → rows (update p f s) ≡ update_where p f (rows s)
  pub rows_delete :
      (p : Row → Bool) (s : State) → rows (delete p s) ≡ keep (λ r. not (p r)) (rows s)

module _ {Row : Type 0} (t : Table Row) where
  -- `SELECT … WHERE p`, also the rows that `DELETE … WHERE p RETURNING` returns.
  abbrev pub select : (Row → Bool) → t.State → List Row
  select p s = keep p (t.rows s)

  -- The first of the rows.
  abbrev pub select_one : (Row → Bool) → t.State → Option Row
  select_one p s = find p (t.rows s)

  -- `INSERT … ON CONFLICT DO NOTHING`: `clash` tells the rows with the same unique key.
  unfoldable pub insert_unless : (Row → Bool) → Row → t.State → t.State
  insert_unless clash r s = if any clash (t.rows s) then s else t.insert r s

pub record Backend : Type 1 where
  pub users : Table User
  pub channels : Table Channel
  pub memberships : Table Membership
  pub messages : Table Message
  pub sender_keys : Table SenderKey
  pub message_reads : Table MessageRead
  pub refresh_tokens : Table RefreshToken
  pub audit_log : Table AuditLog
  pub reactions : Table Reaction
  pub call_logs : Table CallLog
  pub call_participants : Table CallParticipant
  pub redis : Redis

-- The tables, the connection to Redis, and what was sent to the sockets.
pub record World (b : Backend) : Type 0 where
  pub users : b.users.State
  pub channels : b.channels.State
  pub memberships : b.memberships.State
  pub messages : b.messages.State
  pub sender_keys : b.sender_keys.State
  pub message_reads : b.message_reads.State
  pub refresh_tokens : b.refresh_tokens.State
  pub audit_log : b.audit_log.State
  pub reactions : b.reactions.State
  pub call_logs : b.call_logs.State
  pub call_participants : b.call_participants.State
  pub client : Client b.redis
  pub socket : SocketService
