-- ===== src/Posix.antt =====
-- The calls of the operating system and of the C++ runtime that both programs make: the monotonic
-- clock and the sockets. None of them is code of the repository, so they are a parameter of the
-- model: a type of worlds, and for each call a function from the world to its result and the world
-- after it. A time is a number of nanoseconds, a byte a number below 256.
mod Types
mod Contract
mod Script
mod Handles
pub use Types.*
pub use Contract.*
pub use Script.*
pub use Handles.*
