-- ===== src/Client.antt =====
-- The C client of c/client/convex.c.
pub mod Json
pub mod Queue
pub mod Live
pub mod Transition
pub mod Receive
pub mod Send
pub mod Worker
pub mod Api
pub mod Http
pub mod Session
pub mod Closing
