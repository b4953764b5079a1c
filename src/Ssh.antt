-- ===== src/Ssh.antt =====
-- simple_network_dashboard/ssh_manager.py, ssh_session.py and terminal_control.py.
pub mod Session
pub mod Manager
pub mod Connect
pub mod Close
pub mod HostKeys
pub mod Commands
pub mod Control
pub mod Idle
pub mod Owners
pub mod Invariant
mod Tests
