-- ===== src/Tests.antt =====
-- Concrete inputs at which the theorems apply, and runs of the code at them.
mod Storage
mod Codec
mod Connection
mod Streams
mod Whole
mod Payloads
mod Serving
mod Frames
mod Compression
mod Exchanging
mod Tools
