-- ===== src/Tests.antt =====
-- The theorems at concrete inputs, and runs of the definitions.
mod Text
mod Sorting
mod Routing
mod Serving
mod Answering
mod Applications
mod Sockets
mod Clients
mod Exchanges
mod Writing
mod Addresses
