-- ===== src/Fiber.antt =====
-- src/piorun/fiber: the stackful coroutines.
pub mod Wheel
pub mod Sync
pub mod Link
pub mod Poll
pub mod Hook
pub mod Quit
pub mod Env
