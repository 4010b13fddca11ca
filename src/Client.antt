-- ===== src/Client.antt =====
-- The client program, Client/.
pub mod Protocol
pub mod Config
pub mod Desktop
pub mod Socket
pub mod Store
pub mod Reporter
pub mod App
pub mod Main
pub mod Disk
pub mod Examples
