-- ===== src/Examples.antt =====
-- A server with two users and one auction, runs of the handlers on it, and the theorems at it.
mod Demo
mod Runs
mod Invariants
mod Lists
mod Bids
mod Jobs
mod Threads
mod Requests
mod Sales
mod Crowds
mod Clients
mod Sessions
mod Starting
mod Launches
mod Houses
mod Interleavings
