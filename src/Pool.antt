-- ===== src/Pool.antt =====
-- ThreadPool/executors/ThreadPoolExecutor.{h,cpp} and CPUThreadPoolExecutor.{h,cpp}.
pub mod Task
pub mod ThreadList
pub mod State
pub mod Resize
pub mod Worker
pub mod System
pub mod Limits
pub mod Submit
pub mod Stats
