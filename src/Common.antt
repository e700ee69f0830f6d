-- ===== src/Common.antt =====
-- The containers and services of common/src.
pub mod Allocator
pub mod EasyBuffer
pub mod EasyLog
pub mod EasyPool
pub mod DyArray
pub mod Array
pub mod StringBase
pub mod TypeList
