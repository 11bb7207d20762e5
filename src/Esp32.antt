-- ===== src/Esp32.antt =====
-- The link to the door's controller (packages/esp32-link/src/doorboard_esp32_link/esp32.py).
pub mod Wire
pub mod Dedupe
pub mod Link
pub mod Frames
pub mod Send
pub mod Life
mod Tests
