-- ===== src/Lib.antt =====
-- The HomeDash hub (hub/internal): one Go program that keeps a database, opens connections to the
-- machines of a house and to other hubs, and places work on them. This library models the parts
-- that decide something.
--
-- Prelude: the shared names, Boolean tests on the native numbers, lists, signed integers, texts.
-- Settings: the typed readings of the settings table (hub/internal/agent/jobs.go settingInt,
--   hub/internal/peers/peers.go settingInt and settingBool). A missing key reads as the empty text.
-- Hosts: a row of the hosts table and Store.Host of hub/internal/store/hosts.go, which matches a
--   name or a decimal id, in the order of the rows.
-- Jobs: remote jobs. Jobs.Table has the statements of hub/internal/store/jobs.go on the table, a
--   list of rows with the newest first; a statement whose rows break the CHECK on the state fails
--   as a whole. Jobs.Control has Start, Correct, Kill, Rollback and Clear of
--   hub/internal/agent/jobs.go, Jobs.Round the handler of one round, whose context may end before
--   it does, Jobs.Events batchLines, Jobs.Lifecycle any sequence of these. Control writes the rows
--   and hands a round over; the round ends its row by the same statements.
-- Sort: the insertion sorts of hub/internal/pool/pool.go and hub/internal/peers/peers.go.
-- Pool: the router of hub/internal/pool/pool.go. Pool has the marks on busy machines and the
--   queue's counter, Pool.Pick the choice of a machine, Pool.Homes the conversations' homes,
--   Pool.Place the loop of place with proxy and tryPeer, Pool.Exclusion any interleaving of turns,
--   Pool.Meter the token counts of hub/internal/pool/meter.go.
-- Accounts: the tables of hub/internal/store/auth.go with their keys and cascades, invites and
--   tokens.
-- SignIn: the ceremonies and CLI grants of hub/internal/auth/auth.go, over Accounts.
-- Space: the hubs of a space, hub/internal/peers. Space has the admission of a peer's job and its
--   counters, Space.Tables the rows of hub/internal/store/peers.go, Space.Sending the offers and
--   Place of peers.go, Space.Services handleTCP of services.go. Admission shares the set of paths
--   with Pool.Place; learn writes the rows that Place and handleTCP read the approval from.
-- Gate: hub/internal/gate/gate.go. Gate.Words has the regular expressions as functions on texts,
--   Gate.Rules the list of rules, Gate Check and CheckOn.
-- Tasks: the schedule of hub/internal/tasks/tasks.go with the rows of hub/internal/store/tasks.go,
--   runs with the newest first. Tasks.Fire has Fire after its guard, Tasks.Alone the guard.
--   Validate and Fire ask the Gate.
-- Usage: RecordUsage, RollupUsage and UsageTotals of hub/internal/store/hosts.go, without the cost.
-- Fleet: the enrollment codes of hub/internal/store/hosts.go and Report of
--   hub/internal/fleet/fleet.go; Fleet.Sweep a heartbeat on one machine; Fleet.Address the check of
--   a static address, with the four or sixteen bytes of a network, and its change, confirmed by
--   tries at an address, in hub/internal/fleet/address.go; Fleet.Mobile the pushes of a phone and
--   its silence, in hub/internal/fleet/mobile.go.
-- Secrets: hub/internal/store/secrets.go, the key file included; Prelude.Decimal has the column of
--   grants as text. Hidden writes are sequences of SetSecret and DeleteSecret.
-- Devices: the tables of hub/internal/store/devices.go; Devices.Scans has ScanHost and Merge of
--   hub/internal/fleet/network.go, which write them, with the failures of the store; Devices.Acts
--   any sequence of the statements: a scan that is merged is a deletion of the hub's own addresses,
--   sightings and guesses.
-- Server: the sign-in gate and the handlers of accounts, invites and tokens of
--   hub/internal/server/auth.go, over Accounts; Server.Health the report of
--   hub/internal/server/health.go.
-- Apps: Deploy of hub/internal/apps/apps.go as the list of the steps it takes, newest first;
--   Apps.Inside walks a path as the machine does. What a command of an entry does is the machine's
--   answer.
--
-- State is passed explicitly: an operation takes the state and returns its answer with the state it
-- leaves, errors included. What is not under hub/internal is an argument: what SSH, omp, a peer or
-- a machine answers, WebAuthn's answers, AES-GCM, what `net` reads of an address, lower case,
-- hashes, ids drawn at random, what the cron library parses, and the clock, in seconds or, for
-- Space.Tables, Space.Sending and Usage, in milliseconds. One operation is atomic; interleavings
-- are sequences of operations. The loop of place runs over a list of passes, each with what the
-- other requests did in between, and needs no fuel; the conversion of an id to decimal digits has
-- as much fuel as the id, which is more than it has digits, and that of an int64 in the grants of a
-- secret has twenty digits, one more than it needs. Numbers that Go holds as int are natural
-- numbers where the code keeps them from falling below zero, and signed integers where it does not
-- (the limits of a peer and the counters of jobs in flight); none comes near 2^63.
--
-- Not modelled: SSH, HTTP and libp2p transport, JSON, the shell scripts that a machine runs,
-- logging, the panel and the mobile app, the MCP tools, backups, storage, the listing and the
-- placement of apps, the compose gate's rules, the agent's windows and the float numbers (costs,
-- loads, the scores of peers and machines).
pub mod Prelude
pub mod Settings
pub mod Hosts
pub mod Jobs
pub mod Sort
pub mod Pool
pub mod Accounts
pub mod SignIn
pub mod Space
pub mod Gate
pub mod Tasks
pub mod Usage
pub mod Fleet
pub mod Secrets
pub mod Devices
pub mod Server
pub mod Apps
