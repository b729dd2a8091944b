-- ===== src/Tests.antt =====
-- Runs of the models on concrete inputs.
mod Toy
mod Queues
mod Transitions
mod Wire
mod Workers
mod Calls
mod Frames
mod Sessions
mod Numbers
mod Texts
mod Lines
mod Handshakes
