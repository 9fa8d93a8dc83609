-- ===== src/Snmp.antt =====
-- The SNMP collector: collector/protocols/snmp/SNMPv2.go and SNMPv2Walk.go. `Session` is the connection,
-- `Oids` the texts of object identifiers, `Walk` the walk of a subtree, `Fetch` the get of one object,
-- and `Jobs` their retries and what they leave in the job.
pub mod Oids
pub mod Session
pub mod Walk
mod Subtree
pub mod Fetch
pub mod Jobs
mod Reports
mod Deaf
mod Net
mod Examples
