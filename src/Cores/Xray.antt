-- ===== src/Cores/Xray.antt =====
-- field/xray: the core that runs xray-core.
pub mod Options
pub mod Protocols
pub mod Inbound
pub mod Streams
pub mod Built
pub mod Accounts
pub mod Links
pub mod Users
