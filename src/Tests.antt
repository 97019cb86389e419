-- ===== src/Tests.antt =====
-- Tests of the modules at concrete inputs.
mod Floats
mod Executor
mod Manifests
mod Memory
mod Agents
mod Planner
mod Policies
mod Streams
mod Budget
mod Worker
mod Security
mod Capability
