-- ===== src/Tests.antt =====
-- The theorems at concrete inputs, and runs of the code on small data.
mod Handlers
mod Mutexes
mod Vectors
mod Semaphores
mod Tables
mod Queues
mod Scheduling
mod FreeMemory
mod Numerals
mod Archives
