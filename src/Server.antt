-- ===== src/Server.antt =====
-- The code of server/, which captures a desktop, encodes it and sends it.
pub mod Adaptive
pub mod Capture
pub mod ColorConverter
pub mod Discovery
pub mod Encoders
pub mod Scene
pub mod Transport
pub mod TrayApp
pub mod TrayControls
pub mod VirtualInput
pub mod WasapiCapture
