-- ===== src/Panel.antt =====
-- mirror/panel: what the panel's API returns to a node and receives from it.
pub mod Types
pub mod Routes
pub mod Interval
pub mod Fetch
pub mod Users
