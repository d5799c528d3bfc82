-- ===== src/Engine/Registry.antt =====
-- The engine's register of resting orders: each id that is registered has exactly one node, at the
-- address that is registered, and each node is registered.
pub mod Count
pub mod Places
pub mod Books
pub mod Tracked
pub mod Volume
pub mod Submitted
pub mod Cancelled
pub mod Total
