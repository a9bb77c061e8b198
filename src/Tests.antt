-- ===== src/Tests.antt =====
-- Runs at concrete inputs, and the theorems applied to some.
mod Instances
mod Data
mod Cidrs
mod Confs
mod Servers
mod Sessions
mod Flows
mod Relays
mod Clients
mod Stored
mod Engine
mod Adapters
