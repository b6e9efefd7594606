-- ===== src/Examples.antt =====
-- Concrete inputs: a datastore on an association list, codecs, records and keys, at which the
-- theorems are applied.
mod Publications
mod Monitor
mod Remote
mod Controllers
mod MapStore
mod Codecs
mod Routing
mod Listing
mod Labels
mod Counts
mod Cache
mod Zot
mod Sync
