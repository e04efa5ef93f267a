-- ===== src/Tests.antt =====
-- The theorems at concrete inputs.
mod Heaps
mod Partitions
mod Buses
mod Containers
mod Registries
mod Exchanges
mod Observers
mod Workers
mod Schedulers
