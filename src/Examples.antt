-- ===== src/Examples.antt =====
-- Concrete inputs, at which the theorems' hypotheses hold.
mod Texts
mod Servers
mod Messages
mod Disks
mod Caches
mod Sessions
mod Transfers
mod Listeners
mod Interleavings
mod Reports
