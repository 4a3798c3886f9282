-- ===== src/Snapshots.antt =====
-- gpu_watch/processes.py: what is kept of the snapshots that a remote probe sends. The process list
-- of a GPU, the GPU, and the disk each have a module, over the character tests of Tokens.
pub mod Tokens
pub mod Process
pub mod Gpu
pub mod Disk
pub mod Labels
pub mod Bounds
pub mod Readings
mod DiskUsers
pub mod Spaces
