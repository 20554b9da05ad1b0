-- ===== src/Tests.antt =====
-- Runs of the agent's code, and the theorems at concrete data.
pub mod Sample
pub mod Profile
pub mod Ports
pub mod Agent
pub mod Locking
pub mod Layer
pub mod Upstream
pub mod Plans
pub mod Split
pub mod Phone
pub mod Lan
