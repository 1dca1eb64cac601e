-- ===== src/Lib.antt =====
-- Ket: the access service of the server, its data allowances, the encoding of invites, the advice
-- on updates, and of the client the choice of transports, the routes around the tunnel, the leak
-- guard, and the sharing over a hotspot.
--
-- The server (crates/ket-server) keeps access grants and sessions. A device enrols with a grant's
-- access code and gets a session: a lease with a resource slot of its own, and two secrets, one for
-- the control plane and one for the data plane. Grants have a device limit, an end, and perhaps a
-- data allowance for each day, week or month (crates/ket-core/src/allowance.rs); the meter turns
-- the engines' counters into what each session moved, and a grant that has used up its allowance
-- loses its sessions. All of it is one state behind one lock, which each call writes to the state
-- file before it replaces the state in memory. Invites are encoded as canonical CBOR
-- (crates/invite-capsule). Servers tell apps how urgent their update is (crates/ket-update).
--
-- A client (crates/ket-client-core) tries the transports of a session in an order that its history
-- on the network decides, and records how each fared. While a full tunnel is up, a keeper holds
-- direct routes to Ket's servers and to the networks that the user keeps outside (the bypass list
-- of crates/ket-tunnel-protocol), and on Windows a leak guard blocks what would leave beside the
-- tunnel. A share (crates/ket-share) lets nearby devices use the tunnel, to public addresses only,
-- and turns away those that guess the password.
--
-- Common holds what the other modules share: names of the libraries, Boolean tests, lists measured
-- by native numbers, results, and what `retain` keeps. A text is the list of its Unicode scalar
-- values, a list of bytes is a list of numbers.
--
-- Allowance: crates/ket-core/src/allowance.rs. Calendar.Defs has `civil_from_days` and
-- `days_from_civil`, Calendar.Spec the calendar by its rules, Period the periods with their `start`
-- and `end`.
--
-- Server: crates/ket-server/src. Model has the records of model.rs, Validate its `validate`, and
-- Validate.WellFormed what a valid state is. Usage is allowance.rs, Activity is activity.rs, Meter
-- is meter.rs, Admin is grant_admin.rs with the request of crates/ket-core/src/grant.rs, Secrets
-- has the shapes of crates/ket-core/src/secret.rs. Errors and Slots have the errors and the free
-- functions of service.rs. Service has the calls of service.rs: State the service and the store of
-- repository.rs, Grants, Batch, Views, Sessions (with Sessions.Enrolment, Sessions.Tokens and
-- Sessions.DataPlane) and Upkeep the calls. Keeps shows that each call keeps the invariant of
-- Service.Invariant, and Keeps.Steps puts the calls together in runs. Effects says what each call
-- leaves.
--
-- A call takes the service and gives the next one, or an error that leaves it as it was; a call
-- that notes a refusal gives both. A call that looks at the state, lets go of the lock and takes it
-- again is two definitions, and the second takes what the first saw as an argument:
-- `admit_session`, `renew_authenticated` and `end_authenticated` act on whatever record they get,
-- so that any other calls come in between. `authenticate_data_plane` takes the state at its first
-- lock beside the service at its second, and a batch takes what other calls do before each of its
-- creations. A renewal without a slot answers with an error after it has stored the new end, as the
-- code does. The clock, the tokens and the disk's failure are inputs. Argon2, the token hash and
-- the check of a stored hash are the fields of `Crypto`; nothing is assumed of them.
--
-- Capsule: crates/invite-capsule/src/cbor.rs. A decoder is the list of the bytes not yet read.
--
-- Update: crates/ket-update/src. Release has the types of version.rs and identity.rs, category.rs,
-- and the ratings of manifest.rs; Header has the texts of version.rs and identity.rs; Policy has
-- policy.rs. A version in an answer is kept as its three numbers.
--
-- Client: crates/ket-client-core/src. Transport has the types of crates/ket-core/src/contract.rs,
-- Strategy is strategy.rs, with what an adapter supports as a parameter, and Memory is
-- transport_memory.rs, with SHA-256 and the JSON as fields of `Codecs`. A `BTreeMap` is the
-- ascending list of its entries (Common.Maps).
--
-- Net: addresses as numbers. Share: Policy, Limiter, Target and Dns are the files of these names in
-- crates/ket-share/src; the parsers of addresses are parameters, and lookups stop at the socket.
-- Dns.Message has what resolvers send, as RFC 1035 lays it out.
--
-- Routes: Prefix is crates/ket-tunnel-protocol/src/bypass.rs, Plan is plan.rs and Plan.Keeper the
-- state of mod.rs in crates/ket-client-core/src/route_keeper. What the routing table answers is an
-- input, and the table itself is modelled by Ket's routes in it; an action may fail halfway, as in
-- windows.rs. Guard: leak_guard/plan.rs of the same crate; Guard.Decide has how the platform judges
-- by the rules, and the policy.
--
-- Numbers are natural numbers. A sum of times or bytes saturates where the code's does. Slots are
-- searched with fuel: `first_free` tries as many slots as there are, `max_sessions` from 0 on. The
-- loops over records are structural. `evict` has as many passes as there are networks, and each
-- takes one away. `skip_name` has fuel for a step per byte, and more changes nothing.
--
-- Not modelled: the queue of the hashing workers but for its answer, JSON, the file system but for
-- its answer, text items of CBOR, the checks of the release manifest, the texts of addresses, the
-- messages of the share (SOCKS5 and HTTP), the client's connections, the protocol engines, the HTTP
-- interface, and the apps.
pub mod Common
pub mod Allowance
pub mod Server
pub mod Capsule
pub mod Client
pub mod Net
pub mod Share
pub mod Routes
pub mod Guard
pub mod Update
pub mod Tests
