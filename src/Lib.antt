-- ===== src/Lib.antt =====
-- SafeChat: the relay service and its wire format, the chat service with its histories, the service
-- behind the user interface, and the image carrier.
--
-- SafeChat is a messenger whose clients reach each other through a relay. A client speaks HTTP to
-- the relay; messages travel in a binary frame that client and relay share; the relay keeps
-- accounts, nonces, messages and contact requests in SQLite tables. On a device the chat service
-- works on a conversation: it encrypts with the Signal state, submits and receives over a transport,
-- and keeps a history in an encrypted file. The front end sends commands to one worker, which calls
-- the chat service and answers with events.
--
-- Which file models which part (paths are from the repository's root):
--   Protocol                codebase/relay-protocol/src/lib.rs: `Submit`, `Message`, the limits.
--   Protocol/Writer         its encoders: `encode_submit`, `encode_messages`, `put_bytes`, ...
--   Protocol/Reader         its decoders: `Reader`, `decode_submit`, `decode_messages`.
--   Protocol/Layout, Reads, RoundTrip, Parses, Canonical
--                           the format as an independent layout, and proofs in both directions.
--   Relay                   codebase/relay/src/main.rs (limits, `ApiError`) and the tables of
--                           database.rs.
--   Relay/Sql               the SQL statements of the handlers, on a table as a list of rows.
--   Relay/Host              what the relay calls and does not implement, as parameters.
--   Relay/Service           the state and the monad of a handler; Keeps and Returns reason on it.
--   Relay/Validation        validation.rs.      Relay/Auth        auth.rs.
--   Relay/Messages          messages.rs.        Relay/Enrollment  enrollment.rs.
--   Relay/Bundles           bundles.rs.         Relay/Contacts    contacts.rs.
--   Relay/Events            events.rs and `verify_websocket_request`.
--   Relay/Admin             admin.rs, the rest of database.rs, and the commands of main.rs that
--                           change or list the allowlist and the enrollments.
--   Relay/Commands          the command line of main.rs: `Command` and `run`.
--   Relay/Router            router.rs, with those commands: `dispatch` and `serve`.
--   Relay/Router/Frame      a rule for statements about nonces and messages that every call keeps;
--                           Nonces, Mailbox, Retention and Acknowledged use it.
--   Relay/Auth/Genuine, Auth/Untouched, Messages/Delivery, Messages/Resend, Enrollment/Single,
--   Admin/Access, Admin/Revocation, Contacts/Decision
--                           proofs about single handlers.
--   Carrier                 codebase/src/carrier.rs: `PngCarrier` on decoded pixels.
--   History                 codebase/core/src/profile_store.rs: `HistoryFile`, its pages, and the
--                           `HistoryStore` port; History/Files has the encrypted files.
--   History/Paging          proofs about pages.
--   Transport               codebase/core/src/transport.rs: messages, the ports of a transport, and
--                           the text forms; Transport/RoundTrip proves that they are read back.
--   Chat                    codebase/application/src/chat_service.rs: `ChatService` and what its
--                           operations share; Chat/Send has `send_text`, Chat/Poll has `poll`.
--   Chat/Rules              a rule for statements about the history that a poll keeps; Append uses it.
--   Chat/Durable, Outbox, Synced
--                           proofs about sending, retrying and saving.
--   Ui                      codebase/slint-ui/src/ui_service/contracts.rs and model.rs.
--   Ui/State                state.rs.           Ui/Chat           chat.rs and ports.rs.
--   Ui/Service              ui_service.rs.      Ui/Worker         worker.rs.
--   Ui/Profile              profile.rs.
--   Ui/Front                state.rs and worker.rs as steps, with what codebase/slint-ui/src/main.rs
--                           does when the queue refuses a command, and when its timer polls.
--   Ui/Scroll, Live, Idle, Sessions, Names
--                           proofs about paging, answers, waiting, sessions and adding contacts.
--   Client                  codebase/transports/src/relay_client.rs: configuration and state.
--   Client/Config           `RelayClient::new`. Client/Calls      signing, repetition and answers.
--   Client/Requests         registration and bundles; Client/Messages and Client/Contacts the others.
--   Client/Peers            relay_transport.rs, beside relay_client.rs.
--   Client/Bounds, Verified proofs about repeated requests and about fetched bundles.
--   Frames                  codebase/core/src/signal_adapter.rs: `SafeChatMessage`, `SignalEnvelope`.
--   Frames/RoundTrip        proofs in both directions.
--   Prelude/Programs        `anyhow::Result` in methods on `&mut self`, as functions on a state, with
--                           the rules Keeps, Ensures and Returns to reason on them.
--   Prelude                 bytes, UTF-8, text, results, 64-bit integers, lists.
--   */Tests                 runs of the definitions and uses of the theorems.
--
-- How the code is read. Bytes and texts are lists of numbers; that a text is UTF-8 is a hypothesis
-- where it matters. `u64` and `i64` are the numbers themselves, and the casts between them keep the
-- 64-bit pattern. A handler is a function from a world (tables, clock, random source) to a result
-- and a world: what it wrote before an error stays written, except in a transaction. A handler that
-- takes the database lock twice runs here without another call in between, so two calls are ordered
-- and not interleaved. A table is the list of its rows by row id; a statement does not fail for
-- reasons of storage; a query without ORDER BY takes the first row. Times that the relay reads from
-- its clock are plain numbers, below 2 ^ 63; the counter of AUTOINCREMENT does not run out. Each
-- reading of the clock takes the next value of a stream, so it may advance inside a handler.
--
-- A method that takes `&mut self` or `&mut history` is a function from a state to a result and a
-- state, with the error as its text. The chat service runs on any Signal state, transport and store
-- that have the ports' operations; a call of one changes its own part of the state. The queue of the
-- worker is a list of commands, and front end and worker are steps that interleave: a command may be
-- refused, and a poll that is refused has already changed the front end. A command that the worker
-- works on has left the queue, and a command is submitted in any state, also where a handler of the
-- window would not.
--
-- The client's requests go to any network, a function from a request to an answer or an error; time
-- that the client sleeps is recorded and does not move its clock.
--
-- There is no fuel: every loop is structural recursion on its input, and the loop over the attempts
-- of a request on how many of the four are left.
--
-- Parameters (Relay/Host): keys and signatures of signal-protocol, SHA-256, base64, header text and
-- the JSON bodies that handlers parse themselves. JSON that the framework parses arrives parsed.
--
-- The ports of the other parts are parameters too: base64, UTF-8 replacement, age, JSON, the file
-- system with the joining of paths, the Signal state and its bundles.
--
-- Not modelled: command line, TLS and listeners of the relay; the WebSocket itself, of which one
-- text frame is a call; health and capabilities, which answer constants; of the Signal adapter the
-- state, which stands here as a port of the chat service, the bundles and the recovery records; the
-- windows but for the two decisions above, the terminal interface, the localization, and the threads
-- and channels behind the worker's queue, of which the capacity is modelled.
pub mod Prelude
pub mod Protocol
pub mod Relay
pub mod Carrier
pub mod History
pub mod Transport
pub mod Chat
pub mod Ui
pub mod Client
pub mod Frames
