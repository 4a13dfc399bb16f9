-- ===== src/Tests.antt =====
-- The theorems at concrete inputs, by part of the kernel.
mod Kernels
mod Scheduling
mod Synchronization
mod Arithmetic
mod Files
mod Buffers
mod Caches
mod KernelLists
mod Timers
mod RwLocks
mod Directories
mod HashTables
mod OpenFiles
