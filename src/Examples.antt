-- ===== src/Examples.antt =====
-- The theorems at concrete inputs, and tests of the definitions.
mod Samples
mod Domain
mod Db
mod Infra
mod Documents
mod Handlers
mod Workers
mod Polling
mod Acceptance
mod Buckets
mod Messages
mod Callbacks
mod Routes
