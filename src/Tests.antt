-- ===== src/Tests.antt =====
-- The functions at small inputs, and the theorems where their hypotheses hold.
mod Cache
mod Storage
mod Queues
mod Index
mod Filter
mod Marker
mod Har
mod Restore
mod Stream
mod Rewrite
mod Sorting
