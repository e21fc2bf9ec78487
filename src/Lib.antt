-- ===== src/Lib.antt =====
-- immutavault: backups of virtual machines with immutable recovery points.
--
-- The program keeps a catalog in SQLite (src/immutavault/state.py) and an engine over it
-- (src/immutavault/engine.py) that calls hypervisor adapters and restic. A disaster-recovery
-- orchestrator (src/immutavault/dr.py) restores machines at a second site through the same engine
-- when the first one fails, and protection policies (src/immutavault/policy.py) run its backups. The
-- catalog remembers recovery points and until when each is held, copies of points on replicas,
-- restore requests with their approvals, DR runs, the health of DR sites, and an audit log whose
-- events are chained by SHA-256. People come in by a login at an identity provider
-- (src/immutavault/enterprise_auth.py), which gives them a role and tenants.
--
-- Prelude   names of the libraries, tests on numbers, lists, errors as values (Result), the order of
--           texts (Order) and the SQL operations on lists of rows (Table).
-- Json      the values that the catalog stores as text, with `json.loads` of damaged text as a
--           constructor; Json/Print is `json.dumps(…, sort_keys=True, separators=(",", ":"))`.
-- Catalog   `StateDB` of src/immutavault/state.py: the rows and the database (Rows), the audit log
--           (Audit), jobs, recovery points, copies, restore requests, DR runs, site health and the
--           summaries. A method is a function from the database to its answer and the new database.
-- Engine    `BackupEngine` of src/immutavault/engine.py: settings (Config), the backup of a virtual
--           machine and of all (Backup, with the rows it writes in Backup/Files and the copies to
--           replicas in Backup/Replicas), src/immutavault/anomaly.py (Anomaly), retention with the
--           part of src/immutavault/restic.py that chooses what to remove (Retention), holds (Hold),
--           verification (Verify), recovery scores (Scores), and restores: the requests
--           (Restore/Requests) and their execution (Restore).
-- Integrity src/immutavault/integrity.py: the manifest of a directory, made and verified. Where a path
--           leads that no file below the directory has is the file system's answer (`elsewhere`).
-- Consistency  src/immutavault/consistency.py: what a backup attests of the guest's applications.
-- Incremental  `VDDKProvider` of src/immutavault/incremental.py: changed-block backups by a helper
--           process, and the checkpoint, attestation and transport files that they leave.
-- Dr        `DROrchestrator` of src/immutavault/dr.py: settings (Config), calls with effects outside
--           (Action, with rules for what they keep in Action/Rules), the plan and the preflight
--           (Plan, with its readiness in Plan/Ready), the wait for a workload (Health), the fence commands (Fence), the failover with
--           its fence (Promote), the way back (Failback), the copies to the DR replica (Sync), and
--           the watch over the primary site with maintenance (Watch). Its world is the catalog, the
--           list of the effects outside, and what a failover has restored.
-- Access    src/immutavault/enterprise_auth.py: identities and roles, signed session tokens (Token),
--           what claims of an identity provider allow (Claims), the OIDC client's caches of the
--           discovery document and the keys (Documents), ID tokens (IdToken) and the login (Oidc).
-- Policy    src/immutavault/policy.py: the settings as a protection policy narrows them, and its run
--           through `backup_all`.
-- Tests     runs on small data, among them a whole failover and a whole login.
--
-- Conventions. Every reading of `utcnow` in a call is an argument: `now` and `now'` in the order of
-- the readings, or `clock n` for the n-th. Times are ISO texts that are compared as texts, as SQLite
-- and the program do. SHA-256 is the argument `sha256`. What an adapter, restic, the file system or
-- the preflight answers is an argument, or a record of outcomes. AUTOINCREMENT ids come from counters
-- in the database. Tables are lists in the order of their insertion; where `ORDER BY` leaves rows
-- tied, they stay in that order. The text of a stored JSON value is read back as the value that was
-- stored, or is damaged; only the text that the audit hash covers is written out. Decimals of native
-- numbers use fuel, the number itself, which is more than it has digits. Numbers of days, bytes and
-- ids are natural numbers; a negative number of days would be refused like 0.
--
-- Not modelled: SQLite's connections and transactions (a method is one step), the calls of
-- hypervisors, restic, mounts and sockets, the portals and command lines, the initialisation of
-- replicas, the gateways of src/immutavault/dr_network.py, and base64, HMAC, the JSON parser and the
-- RSA check of the sessions, which are arguments; the conversion between hypervisors
-- (src/immutavault/v2v.py), file-level restore (src/immutavault/flr.py), storage targets
-- (src/immutavault/storage.py) and the isolated recovery tests, which are programs of their own
-- around the engine; and the parsing of the configuration files. Waits between attempts take no
-- time; the attempts of a health check are counted down from their number in the settings, so that the loop ends.
pub mod Prelude
pub mod Json
pub mod Catalog
pub mod Engine
pub mod Dr
pub mod Access
pub mod Policy
pub mod Integrity
pub mod Consistency
pub mod Incremental
pub mod Tests
