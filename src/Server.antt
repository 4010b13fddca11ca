-- ===== src/Server.antt =====
-- The server program, Serveur/.
pub mod Config
pub mod Socket
pub mod Hardware
pub mod Camera
pub mod Light
pub mod Button
pub mod App
pub mod Main
pub mod Examples
