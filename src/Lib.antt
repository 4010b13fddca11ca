-- ===== src/Lib.antt =====
-- A verification of the video streaming system: the server of the Odroid board (Serveur/) and the
-- client of the workstation (Client/), which talk over one TCP connection.
--
-- The client asks for an image (GET_FRAME); the server captures one, judges the light by its sensor
-- and by the image, looks whether the button was pressed, and answers with a header byte, a number
-- and, for an image, its size and bytes. The client shows what it got and saves an image that
-- answers a press. Either side gives up a silent connection; the client then reconnects.
--
-- Which file models which part:
--   Protocol and its children Bytes, Message, Stream: Serveur/inc/protocol.h, htonl and ntohl, the
--     layout of the messages as the file describes it, and sequences of them: the specification of
--     both programs.
--   Posix/Types, Posix/Contract, Posix/Handles, Posix/Script: the calls of the operating system,
--     what the programs rely on of them, and concrete systems that meet this. A state is passed as
--     a world.
--   Server/Socket: Serveur/src/tcp_server.cpp (waitForClient is wait_for_client, and so on).
--   Server/Camera: Serveur/src/camera.cpp, over the devices of Server/Hardware.
--   Server/Light: Serveur/src/light_monitor.cpp. update is split into the two `if`s of the source.
--   Server/Button: Serveur/src/button.cpp. The body of the loop of watchLoop is watch_round.
--   Server/App: Serveur/src/server_app.cpp; Server/Main: Serveur/src/main.cpp.
--   Client/Protocol: Client/inc/protocol.h, the client's copy of the protocol.
--   Client/Socket: Client/src/tcp_client.cpp.
--   Client/Store, Client/Reporter: Client/src/image_store.cpp and cycle_reporter.cpp.
--   Client/App: Client/src/client_app.cpp, over the window, codec and files of Client/Desktop. The
--     members and the window are in Client/App/State, exchangeFrame to receiveImage in
--     Client/App/Answers, connectToServer to run in Client/App/Session. Client/Main:
--     Client/src/main.cpp.
--   System: the two programs together, joined by the bytes between them, for one answer (System and
--     System/Press) or for a stretch of a session (System/Session), or by a link that goes dead
--     (System/Timing).
--   Server/Config, Client/Config: the constants of both config.h.
--   Prelude: tests, lists, integers, and the monad of the methods.
--
-- A class is a record of its members, a method a function from the record and the world to its
-- result, the new record and the new world. Methods with loops are in a monad of state in which
-- `none` means that the fuel ran out, and `Returns` says that a run ends and what then holds. The
-- fuel of sendAll is one more than the number of bytes, since each round sends one. That of
-- receiveAll is a parameter: a round reads a byte or waits at least a nanosecond, so the number of
-- bytes plus the nanoseconds of the delay is enough. The loops that run until the user or the peer
-- ends them take a number of rounds.
--
-- Bytes are numbers; frameId and jpegSize wrap at 2^32 as uint32_t does; times are nanoseconds of
-- the monotonic clock. The brightness (a double) is of an abstract type. The statistics of cycles,
-- doubles in the source, are whole nanoseconds.
--
-- Not modelled: log output, copying (forbidden in the source), the boot and deployment scripts, and
-- the build files.
mod Prelude
pub mod Posix
pub mod Protocol
pub mod Server
pub mod Client
pub mod System
