-- ===== src/Kernel/Tests.antt =====
-- The theorems on kernel/ at concrete inputs.
mod Pipes
mod Waiting
mod Disk
mod Paths
mod Frames
mod Log
mod Reclaim
mod Allocation
