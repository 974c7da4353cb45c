-- ===== src/Traces.antt =====
-- The event traces of the MCP clients, projects/PaxosKV/scripts/mcp_paxos_udp.py and
-- projects/IslandUploads/scripts/mcp_islands.py.
mod Log
mod Paxos
mod Islands
mod Causal
mod IslandsOrder
mod PaxosOrder
mod Examples
