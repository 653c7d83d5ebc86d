-- ===== src/Tests.antt =====
-- Runs of the models on concrete inputs: a short text frame with and without a mask, and buffers
-- of a few bytes.
mod Buffers
mod Frames
mod Connections
mod Senders
mod Texts
mod Digests
mod Handshakes
mod Helpers
mod Urls
