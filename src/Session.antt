-- ===== src/Session.antt =====
-- lib/src/session: the session with a device.
pub mod Device
pub mod Commands
pub mod Kinds
pub mod Accounts
pub mod Books
pub mod Cancels
pub mod Serves
