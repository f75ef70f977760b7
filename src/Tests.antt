-- ===== src/Tests.antt =====
-- The theorems at concrete inputs that meet their hypotheses.
mod Codec
mod Config
mod Select
mod Queue
mod Matchops
mod Reconciler
mod Worker
mod Cache
mod Api
mod Hub
mod Connections
mod Formed
mod Custody
mod Lifecycle
mod Stream
mod Start
