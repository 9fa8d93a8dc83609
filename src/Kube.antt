-- ===== src/Kube.antt =====
-- The Kubernetes collector: collector/protocols/k8sclient.
pub mod Value
mod Gvr
mod Cache
mod Cascade
mod Keys
mod Store
mod Sweep
mod Naming
mod Watching
mod Starting
mod Spec
mod Defaults
pub mod Links
mod Identifiers
mod Webhook
mod Matching
mod Rules
mod Review
mod Enrich
mod Runtime
mod Results
mod Collecting
mod Admission
mod Removal
mod Rounds
mod Deployment
mod Samples
mod Examples
