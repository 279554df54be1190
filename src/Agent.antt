-- ===== src/Agent.antt =====
-- The agent that reports on its host: internal/agent and internal/collectors.
pub mod CpuTimes
pub mod CpuUsage
pub mod LogLimiter
pub mod Runner
pub mod Nginx
pub mod Docker
