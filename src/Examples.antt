-- ===== src/Examples.antt =====
-- Runs of the code at concrete inputs, and instances of the interfaces.
mod Fixtures
mod Pools
mod Queues
mod Batons
mod Owners
mod Growing
mod Handing
mod Lifetimes
mod Takers
mod Guards
mod Closing
mod Waits
mod Observing
mod Listing
