-- ===== src/Slots.antt =====
-- The expert slot manager, src/engine/slotmgr.hpp and src/engine/slotmgr.cpp: the pool of GPU slots
-- that hold expert slabs streamed from host memory.
pub mod State
pub mod Evict
pub mod Acquire
pub mod Step
pub mod Index
pub mod Table
pub mod Picks
pub mod Taking
pub mod Invariant
pub mod Update
pub mod Finding
pub mod Filling
pub mod Wanting
pub mod Gather
pub mod Loading
pub mod Ending
pub mod Exhausted
pub mod Evicting
pub mod Keys
mod Tests
mod FullTests
