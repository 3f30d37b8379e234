-- ===== src/Mpmc.antt =====
-- ThreadPool/MPMCQueue.h
pub mod Stride
pub mod Slot
pub mod Queue
pub mod Tickets
pub mod Obtain
pub mod Size
pub mod Dynamic
pub mod Lifetime
