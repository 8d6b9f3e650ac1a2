-- ===== src/Lib.antt =====
-- Verification of the call control of callvoice: the edge service (services/edge), which keeps
-- agents, inbound routing and outbound calls in Redis and drives FreeSWITCH, the limit of calls per
-- second (internal/cps) that it shares, and of the API service (services/api) the import of leads,
-- the login, and the stores of the tables.
--
-- The parts and where they are modelled:
-- * services/edge/internal/agent/presence.go, an agent's live state: Presence, its laws for single
--   calls in Presence/Laws and for histories of calls in Presence/History.
-- * internal/cps/limiter.go and services/edge/internal/cpsgate/cpsgate.go: Cps and Cps/Window.
-- * services/edge/internal/inbound/router.go, which claims an agent for a called number and bridges
--   the channel: Inbound/Number (NormalizeDID, isAgentPool), Inbound/Scan (FirstAvailableAgent),
--   Inbound/Route (Route, Apply), Inbound/Events (HandleEvent, ParseEvent), the last three with
--   their laws.
-- * services/edge/internal/dialer/manual.go, outbound calls: Dialer/Command (the command
--   text; the pattern of the numbers in Dialer/Command/Pattern),
--   Dialer/Calls (channel counters, trackCall, cleanupCall), Dialer/Originate and Dialer/Hangup.
-- * services/edge/internal/live/hub.go and wallboard.go: Live/Hub with its invariant in
--   Live/Hub/Invariant, Live/Wallboard with the counts in Live/Wallboard/Laws.
-- * services/edge/internal/httpapi/calls.go and handleState of agent.go: CallApi and CallApi/Laws.
-- * services/api/internal/csvimport/parse.go, the import of leads: CsvImport and
--   CsvImport/Laws.
-- * services/api/internal/httpapi/auth.go, the login, its lock and the check of a session: Login,
--   Login/Lockout, Session and Session/Laws. The tables are lists of rows, and a list says which of
--   the coming SQL statements fail.
-- * internal/models/models.go, the rows of the tables: Models.
-- * services/api/internal/store, the statements on the tables and their transactions: Sql (what the
--   stores use of database/sql and Postgres, with the rules of its programs in Sql/Laws and Sql/Wp)
--   and Store with Campaigns, Leads, Dispositions, CallLogs, Users and Carriers. Store/Operations
--   joins them to histories; Store/Closed has the rule of invariants, which Store/Status,
--   Store/Claims and Store/Admins use; Store/Whole, Agents, Imports, Offers and Outcomes are about
--   single operations.
-- * services/api/internal/httpapi/carriers.go, campaigns.go, users.go and agent_ops.go,
--   the handlers over the stores, behind the routes of auth.go: Handlers with Carriers, Campaigns,
--   Users, Agents and Routes; their laws are in Handlers/Safe, Handlers/Kept and its like,
--   Handlers/Refusals and Handlers/Imports.
-- * services/api/internal/httpapi/totp.go, the second factor: Totp and Totp/Laws.
-- * The Redis keys of all of these: Keys. The replies of FreeSWITCH: Esl.
--
-- How the code is modelled. A handler is a function from a World to a result and a World
-- (Services/Commands); an error is a value. `Services` (Services) is the interface to code outside
-- the repository: the Redis keyspace with the laws of GET, SET, DEL, INCR, DECR and EXPIRE, and the
-- texts of identifiers. `World.outcomes` says how each coming Redis command ends: answered,
-- refused, done with its reply lost, or, at a watched transaction, in conflict. `Healthy` says that
-- all are answered; a theorem without it holds for every script of failures. `World.replies` are the
-- answers of FreeSWITCH, and `World.sent` the commands it was sent; Services/Commands/Silent follows
-- both through a call. A Lua script and a transaction are one step, as Redis runs them; calls of
-- different handlers interleave as sequences of calls in Presence/History. Services/Memory is an
-- instance with a keyspace in memory, used by the examples in Tests.
--
-- A store is a function from a connection (Db) to a result and a connection. Tables are lists of rows
-- in the order of insertion, with the keys, the references and the checks of
-- services/api/migrations; a list says which of the coming SQL statements fail, a failed statement
-- has no effect, and a transaction that is not committed is undone. A commit whose reply is lost is
-- not modelled. In a history of Store/Operations each operation ends before the next one starts. The
-- code sees to that with locks for the administrator's slot (an advisory lock), the row of a user
-- (FOR UPDATE) and the claim of a lead (SKIP LOCKED); the update of a campaign has none, and
-- Store/Status also runs its statements apart. JSON payloads are the pairs of their object.
--
-- Bounds. Texts are lists of code points; lower and upper case are those of Latin-1 and ASCII.
-- Counters are integers without the 64-bit bound. A limit is a number that is not negative: the code
-- treats a negative limit as 0. A time to live is passed with each write, and expiry is not modelled.
-- No definition uses fuel: loops run over the pages of keys that SCAN gives and the list of carriers.
--
-- Not modelled: the socket loops (RunListener, fs/esl.go), the SQL behind DIDLookup and
-- CarrierLister (arguments here), the other HTTP and websocket handlers, in services/api
-- the stores of DIDs and reports, and the web application (apps). What internal/authkit and
-- internal/cryptokit compute (hashes, tokens, codes, encryption) is a parameter of the definitions
-- that use it (Crypto in Login, TotpCrypto in Totp, Packages in Handlers/Routes).
pub mod Common
pub mod Services
pub mod Keys
pub mod Esl
pub mod Presence
pub mod Cps
pub mod Inbound
pub mod Dialer
pub mod CallApi
pub mod CsvImport
pub mod Handlers
pub mod Live
pub mod Login
pub mod Models
pub mod Session
pub mod Sql
pub mod Store
pub mod Totp
pub mod Tests
