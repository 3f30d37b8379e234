-- ===== src/Executor.antt =====
-- ThreadPool/Executor.h and ThreadPool/Executor.cpp: KeepAlive objects and blocking guards.
pub mod Token
pub mod Blocking
