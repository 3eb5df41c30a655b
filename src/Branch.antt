-- ===== src/Branch.antt =====
-- branch: the controller of one node, which keeps a core in step with the panel.
pub mod Compare
pub mod Cert
pub mod Cloudflare
pub mod Flow
pub mod Controller
