-- ===== src/Lib.antt =====
-- A Go service for the shop floor of a clinic chain: it keeps stores with their rooms, recorders
-- and cameras, serves monitoring to users by role, and takes single pictures from network
-- recorders. This library models its in-memory core, which defines the behaviour of the service
-- without a database, and the picture capture.
--
-- Snapshot models internal/nvrsnapshot. Snapshot.Rtp is ParseRTP; Snapshot.Depacketizer is
-- Depacketizer, whose methods return the new state; Snapshot.AccessUnit and Snapshot.Capture are
-- the loop of WebSocketJPEGCapture.Capture over a connection, one step per message, and
-- CaptureService.Capture; Snapshot.Decode is readBoundedJPEG and validateJPEG,
-- Snapshot.Decode.Process captureJPEG with its shutdown: calls that may block are answers that may
-- be missing, and what it does to the process is a log. Each message goes through the depacketizer
-- into the access unit, the access unit with the parameter sets goes to ffmpeg, and its output is
-- bounded and validated. The connection is the list of what its reads return, ffmpeg the list of
-- what select takes, in any order; the JPEG decoder is a parameter that gives a size. There is no
-- fuel: every loop is recursion on such a list, and `none` or `reading` means that the list ended
-- before the loop did. Bytes are numbers below 256, sequence numbers wrap at 2^16.
--
-- Session models internal/app/auth_session.go: memoryAuthSessionStore with creating, touching,
-- revoking and asking for the status. Instants are nanoseconds from the zero time; the clock's
-- reading, the random token and the digest are arguments. Session.Call is one call, and
-- Session.run a sequence of them in any interleaving, since each call holds the store's lock.
--
-- Access models internal/app/auth_users.go (Access.Roles) and the users of
-- internal/app/memory_store.go with internal/app/mysql_monitor_scopes.go (Access.Users). Unicode
-- case mapping beyond ASCII and SHA-256 are parameters. A Go map is an association list in the
-- order in which a loop meets its keys.
--
-- StoreSpace models internal/storespace: Model is models.go, Areas the helpers on a store's areas,
-- Channels the operations on channels, with Channels.Repository the loops over all stores, Scan
-- the operation on a scanned channel and Accounts the Ezviz accounts of store.go, and Names is
-- duplicate.go. A pointer into a slice is the value beside the changed list. Prelude holds what
-- these share: numbers, texts as lists of runes, decimal numerals within int64, and maps. Tests
-- applies the theorems at concrete inputs.
--
-- Gate models internal/app/authz.go with the sign-in of auth.go. The SSO token, once its form and
-- signature are checked, is the parameter `decode`; every function takes the session store and
-- gives it back, and calls Session and Access as the handlers call the stores. Gate.Login is the
-- callback, the session's status and the logout, Gate.Stores the permission guards and the filter
-- of stores.
--
-- Snapshot.Backfill is BackfillService: each visit of a candidate brings the answers of the
-- capture, the object store and the pause. ResourceView models internal/resourceview, so far up to
-- the bindings between cameras and spaces; NvrMonitor the stream sessions of
-- internal/nvrmonitor/service.go, which reads the same records; Ezviz the paging of
-- internal/ezviz/record_segments.go, whose 20 pages are its fuel, as in the code. StoreSpace.Plan
-- is SaveDesignPlan. StoreSpace.Validation is validation.go, whose result the operations of
-- StoreSpace.Channels rely on.
--
-- Not modelled: HTTP handlers, SQL stores and clients of remote services, which are glue or calls
-- of libraries; wiping of memory, which no result depends on; the recognition of design plans and
-- the H5 monitor; the summary, issues, trees and pages of the resource view; the loop that
-- replaces all channels of a recorder. Locks are not modelled: each operation is one step.
pub mod Prelude
pub mod Snapshot
pub mod Session
pub mod Gate
pub mod Access
pub mod StoreSpace
pub mod ResourceView
pub mod NvrMonitor
pub mod Ezviz
pub mod Tests
