-- ===== src/GatewayAgent.antt =====
-- agent/gateway_agent.py: the commands that put the parts of the agent together.
pub mod Status
pub mod Session
pub mod Profile
pub mod Watchdog
pub mod Commands
pub mod Logs
pub mod Stop
