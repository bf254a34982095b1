-- ===== src/System.antt =====
-- The whole system: what every trap leaves as it was.
pub mod Access
pub mod Console
pub mod Files
pub mod Sound
pub mod Traps
pub mod Steps
pub mod Started
pub mod Loading
pub mod Relocating
pub mod Ready
