-- ===== src/Client.antt =====
-- The code of client/, which receives a desktop and shows it.
pub mod AlsaPlayback
pub mod ConnectionOverlay
pub mod Transport
pub mod DrmDisplay
pub mod InputForwarder
pub mod TuiApp
pub mod WifiScreen
