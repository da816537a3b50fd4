-- ===== src/User.antt =====
-- winvhci/user.c: the userspace side, \\.\WinVhci.
pub mod Backlogs
pub mod ToUser
pub mod ToStack
pub mod Control
pub mod Write
pub mod Stats
pub mod Handle
