-- ===== src/Tests.antt =====
-- A small machine and disk, on which the theorems are applied.
mod Machine
mod Disk
mod Examples
mod Handlers
mod Renames
mod Format
mod Writes
mod Threads
mod Monitors
mod Defrags
mod Creates
mod Labs
