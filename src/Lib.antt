-- ===== src/Lib.antt =====
-- acp-orchestrator: the sessions, agents and requests of the web backend, the slash commands, the
-- terminal chat, and the browser's view of a session.
--
-- The web backend (crates/acp-web-backend) keeps chat sessions in memory. A store maps ids to
-- handles that `Arc` shares; a client reaches a session through the store, which checks the owner,
-- and a running turn reaches it through a handle of its own. A handle keeps the conversation, the
-- queue of completions, the permission requests that wait for an answer, and the channel on which
-- it broadcasts numbered events. The terminal chat (crates/acp-cli) and the browser
-- (crates/acp-web-frontend) show those events and offer slash commands. A session's turns run in an
-- agent, a process that the backend starts from a profile and keeps in a registry, one for each
-- session. A request says by its headers who sends it.
--
-- Common: helpers. Text is a list of code points; a map is an association list, so the order in
--   which a `HashMap` gives its entries is that of the list; a `u64` counter wraps (Common/Word).
-- Contracts: crates/acp-contracts-messages, -permissions, -sessions and -stream, each src/lib.rs.
-- Session: crates/acp-web-backend/src/sessions/handle.rs. Types has the state, Channels the oneshot
--   and watch channels, Events the messages and events, Title the automatic title, Prompts
--   submit_user_prompt and complete_prompt with its loop, Turns the running turn and its
--   permission requests, Lifecycle the rest. Calls puts all methods into one type, so that a
--   history of a session is a list of calls, with the events that the callers broadcast; Frame,
--   Answers, Settles, Cancel, Stable, History, Closed, Numbers, Sequence, Releases, Delivery, Queue
--   and InOrder hold the proofs.
-- Store: crates/acp-web-backend/src/sessions.rs. Types, Access (authorized_handle), Recency (the
--   lists), Retention (prune_closed_sessions), Calls, Sessions and Prompts have the operations,
--   and Requests those that name an owner and a session; Authorization, Local, Isolation,
--   Count, Cap, Deletion, Pruning, Owned and Order hold the proofs.
-- Slash: crates/acp-contracts-slash/src/lib.rs (Types, Parse),
--   crates/acp-web-backend/src/completions.rs (Resolve) and crates/acp-web-frontend/src/slash.rs
--   (Browser); Agreement holds the proofs.
-- Tui: crates/acp-cli/src/tui/app.rs (Types, Editing, History, Transcript, Scroll) and
--   crates/acp-cli/src/events.rs (Updates), with byte offsets in Utf8; Actions puts the methods of
--   ChatApp into one type; Boundary, WellFormed, EditingSafety, Safety and Runs hold the proofs.
--   Input has crates/acp-cli/src/tui/input.rs, on top of the methods of ChatApp, and Commands
--   crates/acp-cli/src/repl_commands.rs; AnswerSafety, InputSafety and Quitting hold the proofs.
-- Routing: crates/acp-web-frontend/src/routing.rs. Utf8 writes out what the code takes from the
--   standard library, Percent has the encoding of a part of an address, Routes the pages and their
--   addresses; Characters, RoundTrip and Addresses hold the proofs.
-- Agent: crates/acp-web-backend/src/agent_runtime.rs (Config, Registry) and agent_profiles.rs
--   (Profiles, Operations). Launches puts the holds of the registry's lock into one type of events,
--   so that threads in any order are a list of events; NoLeak, Cancelled and Waking hold the proofs.
--   Runs does the same for the calls of the profiles' store and its file; Blank, Tree, Valid, Names,
--   Keeping, Restart and Reopening hold the proofs.
-- Auth: crates/acp-web-backend/src/auth.rs (Requests); Decisions holds the proofs.
-- View: crates/acp-web-frontend/src/session_page_actions/stream/events.rs (Events), and what it needs
--   (Types) of session_lifecycle.rs, session_state.rs, session_activity.rs,
--   session_page_entries.rs, session_page_signals.rs and session_page_bootstrap.rs in
--   crates/acp-web-frontend/src; Redelivery, Ids, Conversation and Composer hold the proofs.
--
-- State is passed on explicitly. A method of a session holds its lock from its first to its last
-- access, so each is one step. Its caller broadcasts the events, and for a snapshot takes the lock
-- once more, when the lock is free again: a history is one in which no other call comes in between,
-- and other orders of the broadcasts are not covered. An operation of the store takes several locks in turn; the model
-- runs it as one step, so what another task does between two of them is not covered. The shared
-- memory is a list of handles that only grows, and the map and the turn handles hold addresses in
-- it, so that a turn keeps its session when the map has let it go.
--
-- Fuel: the loop that delivers completions runs one round for each entry of the queue and one for
-- the last test; each round removes an entry, so that is enough. Printing a number n in decimal
-- takes at most n + 1 rounds. The loop that waits for a reservation is one event for each look at the
-- registry, and the search for a new profile's id runs over the ids that the generator gives.
--
-- What comes from outside is an argument: a fresh id and the time (Stamp), the display width of a
-- string, the size of the viewport, what the server answers to the terminal chat, the outcome of
-- starting a process, the serialization of profiles and what the file system answers, the headers
-- of a request and the reading of a UUID. A time is a number, and so is a process.
--
-- Not modelled: the capacity of the broadcast channel, whose receivers may lag, methods for tests,
-- logging, the routes of the HTTP server and the calls of its clients, SQLite, git, the agent
-- protocol, chroots and cgroups, the rendering of either user interface, and the launcher.
mod Common
pub mod Contracts
pub mod Session
pub mod Store
pub mod Slash
pub mod Tui
pub mod Routing
pub mod Agent
pub mod Auth
pub mod View
