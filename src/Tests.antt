-- ===== src/Tests.antt =====
-- The theorems at concrete inputs.
mod Data
mod Stores
mod Transactions
mod Sessions
mod Clients
mod Logins
mod Streams
mod Scans
mod Texts
mod Counters
