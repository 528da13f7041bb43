-- ===== src/Lib.antt =====
-- The server of an end-to-end encrypted chat: NestJS services over Postgres and Redis, reached by
-- HTTP and Socket.IO. A service reads and writes tables, keeps short-lived state in Redis, and tells
-- the other members of a channel by events.
--
-- Prelude, Js   names that all modules share; the dynamic values, sets and texts of the language.
-- Errors        src/common/errors, src/common/filters: what a thrown value becomes for a client over
--               HTTP (normalizeException) and over a socket (toSocketError).
-- Schema        src/database/schema.ts: the rows.
-- Sockets       src/socket/socket.service.ts: what is emitted, kept in an outbox.
-- Store         the tables as a parameter with laws, and the World that services share.
-- Redis         src/redis: keys, sessions and the offline queue (Session), recent messages, unread
--               counters and typing (Cache), the members of a channel (Members).
-- Auth          src/modules/auth: SRP-6a (Srp), refresh tokens (Tokens), the two requests of a login
--               (Login) and the state between them (SrpState), and sequences of these (Runs).
-- Channels      src/modules/channels/channels.service.ts: creation (Direct), members and archiving
--               (Members), reading marks (Reading).
-- Messages      src/modules/messages, src/shared/queues/message-delivery.job.ts: limits and sizes
--               (Limits, Size), sending and delivery (Sending), deletion (Deletion).
-- Keys          src/modules/keys/keys.service.ts: rotation and sender keys, and sequences of rotations
--               (Runs).
-- Reactions     src/modules/reactions/reactions.service.ts; the object in which reactions are grouped
--               (Groups).
-- Calls         src/modules/calls: the state of calls in Redis (State), their rows (Logs), the handlers
--               of the gateway (Gateway, Signals, and over Inputs, Group and Fallback those that use
--               rooms of LiveKit), and sequences of their events (Runs).
-- Livekit       src/modules/livekit/livekit.service.ts: names of rooms, who may join them, tokens; and
--               livekit.webhook.ts, the rows of rooms over their sessions (Webhook).
-- Uuid          the patterns for UUIDs of both.
-- RateLimit     src/common/rate-limit, src/shared/rate-limit, src/common/guards: fixed windows.
--
-- A service's method is a function from the World (tables, Redis client, outbox) to a World and a
-- Result, named as the method in lower case with underscores (addReaction is add_reaction).
-- Postgres and Redis are parameters: Store.Table and Redis.Redis hold their statements and commands
-- with the documented effect as laws, and Store/Concrete.antt gives an instance of each.
-- Identifiers, times, random bytes, hashes and signatures are arguments. A transaction under its
-- lock is one step, and so is a Lua script. The link to Redis is up, down or failing; the last two
-- are what the services degrade on. INCR of a value that is no numeral is an error that ends a
-- script; the other commands meet only keys of their own type. Times are milliseconds as numbers. A
-- handler of a socket event is one step too, so two handlers do not interleave between their
-- awaits: of two invites at once, both could pass the checks before either creates its call. The
-- library of LiveKit is a parameter (Livekit.LiveKit); requests to create a room are not recorded,
-- since nothing reads their outcome. Number(text) is modelled on texts of digits, which are those
-- that the server writes into the hash of a call; JSON.stringify and JSON.parse of the state of a
-- login are those of its three fields, on texts without quotes, backslashes and control characters.
-- Object.values lists array indices first, in ascending order, and other keys as they were made.
-- Rows are read in the order of their insertion where a query has no ORDER BY.
--
-- Bounds: modPow recurses on the exponent, which is no less than the number of its rounds; the
-- digits of a number are counted on the number itself and written on one more, and a number has no
-- more digits than that; findPgError has the four rounds of its source.
--
-- Not modelled: registration, the inbox and the history of a channel, the history of calls, the
-- gateways of sockets and of the chat, uploads, the audit and users services, queues and
-- configuration; start-up, controllers and DTOs are wiring.
pub mod Prelude
pub mod Js
pub mod Errors
pub mod Schema
pub mod Sockets
pub mod Store
pub mod Redis
pub mod Uuid
pub mod Livekit
pub mod Auth
pub mod Calls
pub mod Channels
pub mod Keys
pub mod Messages
pub mod RateLimit
pub mod Reactions
