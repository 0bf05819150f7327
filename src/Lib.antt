-- ===== src/Lib.antt =====
-- acl-edit-only: a web application that edits one ACL of an H3C switch through a separate agent.
--
-- The web side (internal/aclweb) takes a request for a rule, reads the ACL, chooses a rule id, predicts
-- the configuration after the change and shows the difference to the person who approves it. It writes
-- a plan, a file of typed fields, and runs the agent (cmd/aclagent) with the hash of that file. The
-- agent checks the plan against its own configuration, opens a Telnet session (internal/h3c/device),
-- reads the ACL once more, and writes the rule, its comment and the configuration. The web side then
-- compares a snapshot from before with one from after.
--
-- Base holds what the other files share: bytes, decimals, the int of Go, results, and an engine
-- for the expressions of the package regexp that the program uses. Aclout is internal/h3c/aclout.
-- Under internal/h3c/plan, Plan.antt models plan.go, Plan/Validate and Plan/Wildcard are
-- validate.go, and Plan/Address is the part of the package net that it calls. Device is
-- internal/h3c/device: Device/Telnet (telnet.go), Device/Render (render.go), Device/Text and
-- Device/Session (session.go, transport.go), Device/Ops (ops.go); Device/Quiet says which steps of
-- a session only navigate. Core is internal/aclweb/core: Core/Alloc, Core/Diff, Core/Artifacts,
-- Core/Verify, Core/Request and Core/Binding are parts of core.go, and Core/SideBySide is
-- sidebyside.go. The operations of its service are in Core/Spawn (runAgentStream, runSnapshot),
-- Core/PlanFile, Core/Service (Approve, Reject), Core/Submit and Core/Deletion (Submit, SubmitDelete),
-- Core/Settle and Core/Dispatch (handleDispatchFailure, DispatchStream) and Core/Reconcile; Core/Rows
-- has the tables of internal/aclweb/db/schema.go that they work on, Core/Life the states of a request,
-- and Core/History the sequences of calls. Auth is internal/aclweb/auth: Auth/Tables its tables,
-- Auth/Limits the rate limit, Auth/Users the accounts, Auth/Sessions the logins, Auth/History the
-- sequences of calls. Agent is cmd/aclagent: Agent/Config is config.go with internal/cfgpath, and
-- Agent/Credentials, Agent/Guard, Agent/Faults and Agent/Run are main.go. FakeDev is
-- internal/h3c/fakedev, the switch that the tests run against: FakeDev/Wire, FakeDev/Commands and
-- FakeDev/Session are session.go, and FakeDev/Rules is fakedev.go. Tests holds concrete runs.
--
-- A text is the list of its bytes. An int of Go is an integer without bounds where the program only
-- compares and adds small ones, and has its wrap-around written out where it can be reached: in the
-- numbers that are read from a text, the line numbers of a diff, and the ports of a request. The next
-- rule id reaches it only in a window that ends at the largest int, and has no wrap-around. A record
-- of Go that a method changes is passed on. A method of a session is a function from the session to its
-- result and the session after it, over a transport that is a parameter; `sent` is kept beside the
-- session and lists what it has sent. The files, the clock, crypto/sha256, encoding/json and
-- path/filepath are parameters, with no assumption on them.
--
-- The database is its tables, as lists of rows, and a statement is a function on them with the guard of
-- its WHERE. A statement of core.go fails exactly where the context that it runs on is done, which the
-- host tells of its state; one of auth.go fails where it violates a constraint of the schema. Other
-- failures of the database, such as a full disk, are left out. A call of the service is one step; the
-- world outside, with the clock, the files and the switch, is a state of any type that the host's
-- functions and the time between two calls change as they like.
--
-- Loops over lists are structural. The engine for expressions bounds the rounds of a star by the length
-- of the text, since a round that takes no byte ends the loop. The digits of a number are written with
-- fuel above the number itself. The paging loop has the bound of the source, 4000 pages. The
-- simulated switch reads with fuel above the number of bytes that its client sends.
--
-- Not modelled: the interleaving of two calls of the service, the JSON of an audit entry, the HTTP
-- handlers, the listener of the simulated switch, sockets and deadlines, the mirrors of a session's
-- output, `Session.Close`, and the texts of errors where only their kind is used. `strings.TrimSpace`,
-- `strings.Fields` and `strings.ToLower` are those of ASCII text.
pub mod Base
pub mod Aclout
pub mod Plan
pub mod Device
pub mod Auth
pub mod Core
pub mod Agent
pub mod FakeDev
pub mod Tests
