-- ===== src/Tests.antt =====
-- Concrete runs of the theorems: frames of the wire protocol, a host's held keys with a backend that
-- records its key calls, a registry of two devices and a backoff, a video frame of two fragments, a
-- playout buffer of two frames.
mod Wire
mod Host
mod Signal
mod Video
mod Playout
mod Toy
mod Trust
mod Handshake
mod Link
