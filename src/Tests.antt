-- ===== src/Tests.antt =====
-- Runs of the modelled code at concrete inputs, and the theorems at concrete inputs.
mod Matching
mod Ledger
mod Books
mod Messages
mod Feed
mod Recovery
mod Mirror
mod Safety
mod Sample
mod Sessions
mod Sockets
