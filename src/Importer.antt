-- ===== src/Importer.antt =====
-- internal/importer: job events, job retention, tag binding jobs and the probe scheduler.
pub mod Nodes
pub mod Sources
pub mod JobEvents
pub mod Delivery
pub mod Retention
pub mod TagBinding
pub mod TagBindingRun
pub mod Bindings
pub mod Settling
pub mod Cleaning
pub mod ProbeScheduler
pub mod ProbeWorker
pub mod Probing
pub mod Slots
pub mod Scheduling
mod Tests
pub mod Closing
pub mod Verification
pub mod Tallies
pub mod Passes
mod PassTests
mod StoreTests
pub mod SourceLaws
pub mod SourceMerge
pub mod Journal
pub mod StateDb
pub mod Store
pub mod StoreStates
pub mod StoreJobs
pub mod StoreJobLaws
pub mod StoreJobLists
pub mod StoreJobScan
pub mod StoreJobBound
pub mod StoreEdits
pub mod StoreLoops
pub mod StoreKept
pub mod StoreDeletes
pub mod StoreSteps
pub mod StoreRuns
pub mod StoreDuplicates
pub mod StoreRecovery
