-- ===== src/Lib.antt =====
-- PegaProx plugin for OPNsense: a model of the parts that write to the firewalls.
--
-- The plugin sends changes to an OPNsense firewall over its HTTPS API, applies them, checks them by
-- reading back, checks or triggers the synchronization of the HA peer, and notes everything in an
-- audit log. The parts and the files that model them:
--   Prelude          numbers, texts, lists and sorting, with the names of the libraries passed on
--   Value            JSON values and Python dictionaries
--   Exec             exceptions and the monad of state and exceptions; Exec/Costs, Exec/Triple and
--                    Exec/Hoare hold the rules for bounds and for what holds after an action
--   World            what is outside: requests, the audit file, the clock, json and hashlib, as the
--                    record Env; the state of an action is the trace of the requests sent, the
--                    sleeps and the audit entries written, newest first, and an answer of the
--                    outside may depend on all of it; World/Grows holds the rules for actions that
--                    only add to it
--   Client           src/client/opnsense_client.py: get, post, request (_request), attempt_loop (its
--                    loop), judge (the reply), backoff (_sleep_backoff)
--   Audit            src/writers/audit.py: hash_payload, AuditEntry.now, AuditLog.append, _record
--   Ha, Ha/Item      src/writers/hasync_writer.py: HAVerifier.sync, verify, verify_item,
--                    verify_robust, _get_revision, verify_revision
--   Writers          the life cycle that src/writers/alias.py, rule.py, nat.py, one_to_one.py,
--                    wireguard_peer.py, dhcp.py, dhcp_subnet.py and unbound.py share: create_row,
--                    update_row, delete_row over a record of endpoints; one module below it for each
--                    writer, with its input, payload, checks and operations
--   Carp             src/collectors/carp.py: the CARP role of a node
--   Verified         src/writers/verified.py: Checks (values), Reads (search, get, verify), Preflight
--                    (_sync_preflight), Sync (_sync and the cleanup of a last port forward), Report,
--                    Perform and Execute (_execute in its steps, then execute); the other modules
--                    below it prove what holds of these
--   Engine           src/management/engine.py: the specification of a resource (this file), Names (_get,
--                    _put, _drop), Replies (selected, _path, _ack), Values (_values), Items and Service
--                    (_call, _raw, _public, list, detail, _audit), Scan (the search for a deleted object),
--                    Readback (the comparison of fields), Change and Mutate (mutate, _mutate); the other
--                    modules below it prove what holds of these
--   Catalog          src/management/catalog.py: every resource, as a specification of the engine
--   Examples         concrete firewalls on which the properties are tried
--
-- A verified operation calls the client for every read and POST, the audit log before its first
-- request and after its last one, and the CARP collector in its preflight; a resource writer calls
-- the client, the HA verifier and the audit log. The management engine takes a resource of the
-- catalogue and calls the client and the audit log; it takes its checks of uuids and revisions from
-- the verified writer.
--
-- Bounds: every loop is by structural recursion on the number of rounds left, starting from the
-- number of attempts that the code has, so there is no fuel that could run out; only the search
-- for a deleted object is a loop that ends by its tests alone, and has fuel for 1000 pages, which
-- a theorem shows to be enough. Numbers are natural numbers, and integers where the code admits
-- negative ones; the delays are in milliseconds.
--
-- Not modelled: the lock of execute, so that an operation runs from its first step to its last
-- without another one in between; log messages; Python's `str` of an array or an object and its JSON
-- text, which are parameters; digits outside ASCII; the argument checks of __init__ of the verified
-- writer; the lock of mutate; the routes, the CRL service, the operations, the backups, the identity
-- catalogue, the divergence, the other collectors and the web pages.
pub mod Prelude
pub mod Value
pub mod Exec
pub mod World
pub mod Client
pub mod Audit
pub mod Ha
pub mod Writers
pub mod Carp
pub mod Verified
pub mod Engine
pub mod Catalog
pub mod Examples
