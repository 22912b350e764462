-- ===== src/Lib.antt =====
-- Verification of windrunner, which owns terminal sessions: a session is a process on a PTY, with an
-- emulator that knows what its terminal shows, and any number of viewers that attach to it.
--
-- The parts, and where they are modelled:
-- - wire/wire.go, the frames of the protocol: Wire (WriteFrame is `write_frame`, ReadFrame is
--   `read_frame`); Wire/RoundTrip has the proofs. Its payloads: Wire/Payloads with Requests and
--   Responses below it, each a record, the table of its fields, and the members that it is written
--   as; Wire/Payloads/Fields takes one member behind the other, and the RoundTrip files put these
--   together. Json has encoding/json as far as they need it: trees, Unmarshal into a struct
--   (Json/Struct), and the parameter Text.
-- - termstate.go, the modes and margins that session.go tracks beside the emulator: TermState
--   (`observe`, `observe_csi`, `apply`, `resize`, `replay`); a Go int of a parameter wraps at 64 bits.
--   TermState/Sequences has the parsing of what `replay` prints, TermState/Settings says what kind of
--   bytes these are, TermState/Replay and TermState/WellFormed have the rest.
-- - session.go, where a chunk of output is cut: Boundary (`complete_boundary`,
--   `incomplete_rune_tail`, and the loop of `readLoop` as `read_step`, `read_loop`), with
--   Boundary/Scan, Sequences (what ECMA-48 calls a sequence), Runes, Stream and Holdback.
-- - session.go, the subscriptions: Channel has Go's buffered channels, in which a send on a closed
--   channel and a second close panic and a send to a full one blocks; Hub has `deliver`, `finish`,
--   `Close`, `flushResyncsLocked`, `armResyncRetryLocked` and `retireViewerLocked`. Hub/Invariant,
--   Sets, Attached and Flush say what each does to every subscription.
-- - session.go, the session: Environment (the child's environment in startSession), Screen
--   (`snapshotLocked`, `screenRepaintLocked`), Session (startSession, readLoop, waitLoop, goIdle,
--   the metadata), Viewers (Resize, ResizeViewer, effectiveLocked, applySizeLocked, settleSize,
--   AttachWith, Kill, close).
-- - engine.go: Event has its events, Engine the registry (Spawn, Session, Remove, Close) and the event
--   subscriptions; Engine/Events, Feeds and Leaving say what each section does to every
--   subscription, Engine/History puts them into histories, and Engine/Order is about a spawn.
-- Screen/Tracked is about the bytes of snapshots and repaints, Session/Revisions about the
-- metadata, Environment/Laws about the environment, Viewers/Sizes, Settled, Newest and Pty about
-- sizes, Viewers/Late about an attachment behind the end of the output.
-- Viewers/Replica says what is asked of a client that paints, Viewers/Exact, Attach and Final what
-- each section does to its replica, Viewers/Sections what it keeps also behind the close,
-- Viewers/Steps puts the sections into histories, and Viewers/History says what holds in them.
--
-- - server/server.go: Server (`describe`, auditSend, the errors), Server/Handle (`handle`, a function
--   for each operation), Server/Requests (decodeRequest, unknownField), Server/Connection (the loop of
--   serveConn as `serve`), Server/Attach (serveAttach as `serve_attach`, `pump` and `attach_round`,
--   serveSubscribe as `serve_subscribe`). Server/Replies, Input, Metadata, Decoding and Loop have the
--   proofs.
-- - client/client.go: Client (`call` and the calls), Client/Attachment (AttachWith, Subscribe and the
--   two read loops), Client/Daemon (EnsureDaemon); Client/Remote, Calls, Streams and Events set them
--   against the server, Client/Replica puts a client that paints in front of a session, and
--   Client/Typing sets what a viewer sends against the loop that reads it (Server/Attach/Reader).
--   client/interactive.go: Client/Interactive, with Keyboard below it.
-- - cmd/windrunner/main.go: Command, with Dispatch and Resolution below it.
--
-- How they interact. `readLoop` reads from the PTY, cuts the chunk with Boundary, and writes the
-- front to the emulator and to TermState and delivers it to the subscriptions in Hub. A delivery to a
-- full channel drops the viewer, or makes the session owe it a snapshot, that a timer sends. Sizes
-- that viewers state are resolved in Viewers, and a change of size is delivered as a repaint. The
-- server calls the engine and its sessions and writes to the wire what it is answered; the client
-- writes requests and reads what the server has written.
--
-- The model. A session is a record, and every section under its lock is a function on it; the answers
-- of the system (`pty.Setsize`, the read of the PTY, the exit code) are arguments. A goroutine that
-- has been started is a number (`settling`) or a Boolean (the timers), and the order in which
-- goroutines run is the order of the steps of a history. A subscription is known by a number, its
-- address. The iterations of Go over a map go over a list in some order. The emulator
-- (github.com/charmbracelet/x/vt) is the parameter Vt, and the client the parameter Replica, with
-- laws that say what a terminal makes of output and of what an emulator renders, in whatever bytes
-- its modes and margins are set; that the cursor's position brings the cursor to where the emulator
-- has it is part of these laws. The text of JSON, base64, the text of an error and %q are the
-- parameter Text, with the laws of a round trip; the library's strings are ASCII where they go as
-- JSON, since Marshal replaces what is no UTF-8. Loops are recursions on the bytes, the lists or the
-- rounds that are left, but for the loops that read frames: these run on fuel, one unit for a frame,
-- and a stream has fewer frames than bytes. An operation of the server runs undisturbed; between two
-- requests of a connection, an arbitrary function moves the engine on. A session in the registry is a
-- value, and what a method does to it is put back. `(*Session).close`, `(*Engine).Close`, `Remove`
-- and `(*EventSubscription).Close` have a section under the lock and finish subscriptions, close
-- sessions or publish behind it: in the histories these are steps of their own (`shut` and
-- `finish_viewer`, `shut` and `finish`, `unregister`, `leave`), and Viewers.close, Engine.close and
-- `remove_session` put them together for callers that nobody disturbs. So are the last write of
-- `readLoop` (`write_rest`) and the end of the stream (`end_stream`).
--
-- What is not modelled. `respondLoop` only moves bytes to the PTY, and `logStdin` writes a log. The
-- locks themselves are not: a section under a lock is one step. The mark and the retirement in
-- `Close` are one step or two. The reset of the idle timer, its stop at the end of the child, and the
-- call of `publish` behind a lock belong to the step in front of them. `newID` is an argument. Of the server, that two connections are served
-- at the same time within an operation, and the two goroutines of serveAttach against each other; of
-- the client, dialing, deadlines, and that a read loop blocks on a full channel; of the command, the
-- removal of escapes in `peek`, and its files and signals. They are system calls
-- or left to later. But for the laws of Replica nothing is said of what the emulator renders.
pub mod Boundary
pub mod Channel
pub mod Client
pub mod Command
pub mod Engine
pub mod Environment
pub mod Event
pub mod Hub
pub mod Json
pub mod Prelude
pub mod Screen
pub mod Server
pub mod Session
pub mod TermState
pub mod Tests
pub mod Viewers
pub mod Vt
pub mod Wire
