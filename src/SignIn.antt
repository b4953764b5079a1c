-- ===== src/SignIn.antt =====
-- simple_network_dashboard/session_manager.py: the stored browser sessions and the login throttle.
pub mod Throttle
pub mod Store
