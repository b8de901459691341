-- ===== src/AgentApi/Shield.antt =====
-- Proofs about shieldUpstreamFor of brisk-control/internal/api/agent.go.
