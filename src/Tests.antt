-- ===== src/Tests.antt =====
-- Runs of the theorems on small kernels.
mod Queues
mod Events
mod Processes
mod Messages
mod Disk
mod Devices
mod Memory
mod Clusters
mod Drives
mod Managers
mod Heaps
mod Shells
mod Programs
mod Syscalls
mod Files
mod Turns
mod Clock
