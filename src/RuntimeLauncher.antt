-- ===== src/RuntimeLauncher.antt =====
-- agent/runtime_launcher.py.
pub mod Plan
pub mod Launch
pub mod PhoneSetup
pub mod Gate
pub mod Listeners
