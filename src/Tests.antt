-- ===== src/Tests.antt =====
-- Concrete clients and inputs, the theorems at these, and runs of the code.
mod Memory
mod Stores
mod Pools
mod Lending
mod Requests
mod Getters
mod Runs
mod Agent
mod Containers
mod Documents
mod Endpoints
mod Addresses
mod Connections
mod Leftovers
mod Networks
