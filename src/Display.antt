-- ===== src/Display.antt =====
-- ubuntu/t630_display.py: the local display and flashlight controls that the Power monitor serves.
pub mod Flashlight
pub mod Settings
pub mod Request
pub mod Socket
mod Scenarios
