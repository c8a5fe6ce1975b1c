-- ===== src/Verified.antt =====
-- `src/writers/verified.py`: the verified writes of filter rules, port forwards and aliases. The
-- parts are in the modules below: the checks of values, the reads, the HA preflight and
-- synchronization, the operation itself, and what is proved of it.
pub mod Checks
pub mod Reads
pub mod Preflight
pub mod Sync
pub mod Report
pub mod Perform
pub mod Execute
pub mod Complete
pub mod Matching
pub mod Growth
pub mod SyncGrowth
pub mod PeerSound
pub mod Pending
pub mod Posts
pub mod SyncPosts
pub mod Bounds
pub mod Stale
pub mod Unreserved
pub mod Settled
pub mod Sound
