-- ===== src/Ledger.antt =====
-- ledger.py. The first four modules are the code; the others prove what it keeps.
pub mod State
pub mod AddEvidence
pub mod Hypotheses
pub mod Premises
pub mod Duplicates
pub mod Batch
pub mod Apply
pub mod Markers
pub mod Restore
pub mod Keyed
pub mod Snapshot
pub mod Restoring
pub mod Evolution
pub mod Declaring
pub mod Rules
pub mod Invariant
pub mod History
pub mod Reopening
pub mod Frames
pub mod Calls
pub mod Validity
pub mod Retraction
pub mod Registering
pub mod Refinement
pub mod Batches
pub mod Loopholes
mod Tests
