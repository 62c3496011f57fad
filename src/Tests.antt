-- ===== src/Tests.antt =====
-- The theorems at concrete inputs, and runs of the models.
mod Lru
mod Requests
mod Timed
mod Timelines
mod Traces
mod Ports
mod Secrets
mod Environment
mod Settings
mod Merges
mod Platform
