-- ===== src/Client/App.antt =====
-- Client/src/client_app.cpp and Client/inc/client_app.h: the window's state (State), the exchanges
-- with the server (Answers), reconnection, the cycles and shutdown (Session). The output that only
-- logs is left out. A loop takes fuel, a number of rounds; `a - b < c` on time points is written
-- `a < b + c`.
mod State
mod Answers
mod Session
pub mod Drawing
pub mod Showing
pub mod Decoding
pub mod Arrival
pub mod Shutdown
pub mod Exchange
pub mod Cycling
pub mod Window
pub mod Taking
pub mod Archiving
pub mod Following
pub mod Progress
pub mod Staying
pub mod Losing
pub mod Saving
pub mod Keeping
pub mod Handling
pub mod Asking
pub mod Owning
pub mod Holding
pub mod Connecting
pub mod Starting
pub mod Timing
pub mod Waiting
pub mod Pacing
pub mod Images
pub mod Displaying
pub mod Examples
unfoldable pub use State.*
unfoldable pub use Answers.*
unfoldable pub use Session.*
