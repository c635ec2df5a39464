-- ===== src/Screen.antt =====
-- src/screen: the captured frames and the path of the encoder's output.
pub mod BgraRgba
pub mod Segments
pub mod Pipeline
