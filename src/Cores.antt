-- ===== src/Cores.antt =====
-- field/sing, field/hy2 and field/xray: what the three cores keep beside the proxies that they run.
pub mod Traffic
pub mod Nodes
pub mod Result
pub mod Sing
pub mod Xray
pub mod Hysteria2
