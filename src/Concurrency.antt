-- ===== src/Concurrency.antt =====
-- The containers and locks that threads share, one module to a task of the repository.
pub mod BufferedChannel
pub mod UnbufferedChannel
pub mod Semaphore
pub mod TimerQueue
pub mod SyncMap
pub mod RwLock
pub mod RwSpinLock
pub mod FutexMutex
