-- ===== src/Host.antt =====
-- One host: go/collector/service/HostCollector.go, BootSequence.go and StaticJobs.go. `State` holds the
-- data, `Stage` a boot stage, `Loop` the collection loop and `Life` start, update and stop.
pub mod State
pub mod Stage
pub mod Loop
pub mod Life
pub mod Ready
pub mod Steps
mod Sequence
pub mod Progress
pub mod Working
pub mod Halting
mod Statics
pub mod Executing
pub mod Collecting
pub mod Running
mod Examples
