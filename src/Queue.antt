-- ===== src/Queue.antt =====
-- go/collector/service/JobsQueue.go. The jobs are shared objects: the queue's list, its map and the
-- collection loop hold the same pointers, so a job lives in a heap and the queue holds addresses.
-- What the methods lock is one step here. The pollaris registry, the clock, the random numbers and
-- the order in which Go ranges over a map are parameters.
mod State
mod Adding
mod Taking
pub mod Visiting
pub mod Selection
pub mod Rotation
pub mod Fairness
pub mod Invariant
pub mod Insertion
pub mod Closing
pub mod Expediting
pub mod Samples
mod Examples
unfoldable pub use State.*
unfoldable pub use Adding.*
unfoldable pub use Taking.*
