-- ===== src/Tests.antt =====
-- Concrete inputs of the theorems.
mod Sorted
mod Space
mod Channel
mod User
mod Queue
mod Args
mod Timers
mod Hash
mod AdminDb
mod Jupes
mod Network
mod Clients
mod Chanfix
