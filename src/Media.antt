-- ===== src/Media.antt =====
-- src/media: serving a source to the receiver.
pub mod Flush
pub mod Http
pub mod LocalFile
pub mod Range
pub mod Server
