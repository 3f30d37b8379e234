-- ===== src/WorkerIds.antt =====
-- `ThreadIdWorkerProvider` of ThreadPool/executors/QueueObserver.cpp: the set of the ids of the worker
-- threads, and the lock that keeps a thread from its exit while a KeepAlive lists it. A set is its
-- characteristic function.
use thread_pool_exec.Prelude.{put, ℕ, ◌≡◌, ◌≢◌, ◌⊎◌, inl, inr, Bool, true, false}
pub mod Laws

-- A worker thread before `addTid`, after it, within `removeTid` past the erasure, and after that.
pub data Worker : Type 0 where
  outside added erased gone : Worker

-- A call of `collectThreadIds`: before it, with the read lock of `threadsExitMutex_`, and with the ids
-- that it returned, until its KeepAlive is destroyed.
pub data Collector : Type 0 where
  idle locked : Collector
  collected : (ℕ → Bool) → Collector

pub record Provider : Type 0 where
  pub os_thread_ids : ℕ → Bool
  pub workers : ℕ → Worker
  pub collectors : ℕ → Collector

unfoldable pub add_tid : ℕ → Provider → Provider
unfolding put
add_tid tid p = record p {
  os_thread_ids = put p.os_thread_ids tid true;
  workers = put p.workers tid added;
}

unfoldable pub erase_tid : ℕ → Provider → Provider
unfolding put
erase_tid tid p = record p {
  os_thread_ids = put p.os_thread_ids tid false;
  workers = put p.workers tid erased;
}

-- The threads take `osThreadIds_` for one access, and the write lock of `threadsExitMutex_` only
-- where no call has the read lock. An id may be used again.
pub data Step (p : Provider) : Provider → Type 0 where
  add : (tid : ℕ) → (p.workers tid ≡ outside) ⊎ (p.workers tid ≡ gone) → Step p (add_tid tid p)
  erase : (tid : ℕ) → p.workers tid ≡ added → Step p (erase_tid tid p)
  exit :
      (tid : ℕ)
      → p.workers tid ≡ erased
      → ((g : ℕ) → p.collectors g ≡ idle)
      → Step p (record p { workers = put p.workers tid gone })
  lock :
      (g : ℕ) → p.collectors g ≡ idle → Step p (record p { collectors = put p.collectors g locked })
  collect :
      (g : ℕ)
      → p.collectors g ≡ locked
      → Step p (record p { collectors = put p.collectors g (collected p.os_thread_ids) })
  release :
      (g : ℕ) {ids : ℕ → Bool}
      → p.collectors g ≡ collected ids
      → Step p (record p { collectors = put p.collectors g idle })

pub data Reach (p : Provider) : Provider → Type 0 where
  here : Reach p p
  next : {q r : Provider} → Reach p q → Step q r → Reach p r

abbrev pub nobody_yet : Provider
nobody_yet = record { os_thread_ids = λ _. false; workers = λ _. outside; collectors = λ _. idle }
