-- ===== src/Telegram.antt =====
-- The telegraph protocol of src/telegram.h and src/telegram.c.
pub mod Serial
pub mod Tracker
pub mod Encode
pub mod Decode
pub mod Codec
mod Tests
