-- ===== src/Tests.antt =====
-- Runs at concrete inputs: of the store, of the repair pass and the leases over a small Redis server
-- in memory, and of the agent with a scripted model.
mod Memory
mod Stores
mod Columns
mod Queues
mod Agents
mod Handlers
mod Attempts
mod Clients
mod Providers
mod Recordings
mod Sandboxes
mod Downloads
mod Starts
mod Streams
mod Systems
mod Threads
