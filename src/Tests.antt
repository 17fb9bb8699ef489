-- ===== src/Tests.antt =====
-- The theorems at concrete inputs, and runs of the definitions.
mod Queue
mod Dashboards
mod Passes
mod Limits
mod Workers
mod Listings
mod Requests
mod Reports
mod Keys
mod Settings
mod Server
mod Heartbeats
