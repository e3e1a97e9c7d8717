-- ===== src/Tests.antt =====
-- The theorems at concrete inputs, and small runs of the definitions.
mod Framing
mod Queues
mod Wires
mod Txs
mod Ports
mod Publishing
mod Configs
mod Lives
mod Agents
mod Runs
mod Loads
mod Routed
