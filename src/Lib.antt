-- ===== src/Lib.antt =====
-- Verification of the ami client library, a Go client of the Asterisk Manager Interface.
--
-- The program. One connection carries the responses to the client's own actions and a broadcast of
-- events. internal/demux is the state machine in between: it admits actions, routes every inbound
-- message to a waiter, a list, a follow or the ordinary subscriptions, keeps each branch's queue
-- within its caps, and remembers in retirement records which ActionIDs may still draw traffic. The
-- session (client.go, dispatch.go, conn.go) calls it under a lock and performs the effects that it
-- returns. internal/wire reads and writes the messages; the framer (conn.go) writes an action with
-- its envelope and reports what became of it; classify.go turns a message into the envelope that the
-- machine routes by.
--
-- The files. Base: tests, lists, maps and results that the modules share. Demux: internal/demux.
--   Demux/Types: types.go, and the data of limits.go, branch.go, pending.go, retire.go
--   Demux/Queue: queue.go
--   Demux/Names: `fold` and `foldSet` of demux.go
--   Demux/Machine: `Machine`, `New`, `Snapshot`, `clock`, `check` of demux.go
--   Demux/Retire: retire.go, and the release of a list's slot of branch.go
--   Demux/Death: `Kill`, `fatal`, `kill` of demux.go, `Expire` of retire.go
--   Demux/Branch: branch.go
--   Demux/Pending: pending.go
--   Demux/Route, Route/Fanout, Route/Lists: route.go; Route/Delivery, Route/Reach: `fanout`
--   Demux/Ledger: the invariant `IsSound`, with a module for each group of operations that keep it
--   Demux/Isolation, Cascade: what list traffic and a death do to the rest of the machine;
--     Cascade/Waiters, Branches: the loops of a death
--   Demux/Tests: a machine with a branch of each family, and the theorems at it
-- Wire: internal/wire.
--   Wire/Types: the fields, limits, `Validate` and errors of wire.go
--   Wire/Folding: `strings.EqualFold` against the ASCII names of the protocol
--   Wire/Writer: writer.go
--   Wire/Fields: `splitField`, `msg` and its budgets of reader.go
--   Wire/Lines: the state of `Reader` and `readLine` of reader.go
--   Wire/Reader: `ReadBanner`, `ReadMessage`, padding and the legacy framing of reader.go
--   Wire/LineLaws, LineReads: `readLine`; FieldLaws, RoundTrip, Exchange: a written message is read
--   Wire/Padding: blank lines between messages; Wire/Progress, Endings: its loops end
--   Wire/Tests: a message of two fields, and the theorems at it
-- Client: the root package.
--   Client/Message: message.go, and the constructors of action.go and event.go
--   Client/Classify: classify.go, `newActionID` of client.go; Classify/Folding, Ids, Envelopes: proofs
--   Client/Counts: `countExtractor` of dispatch.go; Counts/Declared: proofs
--   Client/Settings: the limits of limits.go and config.go, `Validate` of internal/demux/limits.go;
--     Settings/Resolution, Sessions: proofs
--   Client/Framer: `writeAction`, `wireError` of conn.go; Framer/Writes, Delivery: proofs
--   Client/Reads: `read` of conn.go with its hooks; Reads/Outcomes: proofs
--   Client/Session: the session under its lock, of client.go; Session/Release, Termination, Sending: proofs
--   Client/Dispatch: `writeAdmitted`, `resolveNotSent` of dispatch.go; Dispatch/Reports: proofs
--   Client/Waiting: the registration of `dispatch`, `await`, `admitError`; Waiting/Runs, Answers: proofs
--   Client/Tests, SessionTests, SettingsTests, ReadTests: the theorems of the root package at small
--     values
-- An operation has the name of its Go method in snake_case (`route_list_event` is
-- `routeListEvent`); a method with several cases is split at its switch (`close_sub`, `take_list`).
--
-- The correspondence. A call takes a machine and returns a machine, with the effects that it adds.
-- A panic of `violated` is a value: the call returns `err` of a `Violation`. A returned Go error is
-- a value of `Error` beside the machine, which is then as it was. A pointer to a pending, a
-- subscription, a follow or a list is its number, and a write through the pointer is a write to the
-- map; a list that has left `listByID` while a pending points to it is kept in `detached_lists`.
-- A pointer that leads nowhere is the violation `dangling`. A map is an association list, and a Go
-- range over it runs in the order of that list, about which nothing is assumed. The zero value of a
-- payload and a nil name set are `none`.
--
-- Numbers. int and int64 sizes, counts and times are natural numbers without overflow, so that no
-- charge is negative; the count that a list declares, which may be negative, is an integer. A
-- subtraction of a charge that is larger than its aggregate stops at zero, and the aggregate then
-- differs from the sum that `check` compares it with. The loops of internal/demux run over a list
-- that is given at their start. The loops of the reader use fuel, one more than the stream has bytes:
-- every round takes a byte at least. A loop out of fuel fails with the error `stuck`. The digits of
-- `format_uint` use fuel too, one more than the number.
--
-- Strings and streams. A Go string is the list of its bytes. A stream is the bytes that are still to
-- come, buffered or not, and how it ends: the end comes on its own, with no bytes. The buffer of
-- `bufio.NewReader` has 4096 bytes. Outside ASCII, `strings.EqualFold` gives a partner to `s` and `k`
-- only; the keys of `Lookup` and `Values` and the declared count fields are ASCII names. The calls of
-- the reader's two hooks are logged. One call of `conn.Write`, the context and a concurrent `close`
-- are the record `World` of Client/Framer, about which nothing is assumed. The counter of ActionIDs
-- is a natural number and does not wrap around.
--
-- `Safe P` of a call says: it returns a value with `P`, or it stops at a violation that is none of
-- those that `check` reports. `IsSound` says that the queues are valid and within their caps, that
-- the aggregates of bytes, holds and pendings are the sums over the live branches, pendings and
-- records and within the limits, and that a dead machine routes nothing.
--
-- The session. What runs under the session lock is one step. A map from tickets or branches is a
-- function, and a range over it acts at every key at once, since a round touches one channel or one
-- branch. The channel of a waiter is the list of what was sent to it. A panic of the machine in the
-- middle of a mutation leaves a machine of which nothing is known (`none`): what it answers from then
-- on is the record `Wreck`, about which nothing is assumed. A call that `dispatch.go` makes on
-- such a machine outside the read loop is taken to panic, although in Go it may return.
--
-- Not modelled. `Dial`, login, the expiry and keepalive loops, `do` and `StartList` around the dispatch,
-- the writer's semaphore, the clock behind a deadline, the public handles, the
-- statistics, the test server (amitest) and the examples. The types `Ticket` and `BranchID` are
-- their numbers; `Reason.String` and the accessors `Dead`, `Counters` and `Dirty` read fields only.
pub mod Base
pub mod Demux
pub mod Wire
pub mod Client
