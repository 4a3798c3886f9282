-- ===== src/Tests.antt =====
-- Concrete runs of the model, and each theorem applied at a concrete input.
mod Intervals
mod Limiter
mod Text
mod Processes
mod Collection
mod Host
mod Tables
mod Gpu
mod Board
mod Collector
mod Quota
mod Guards
mod Passphrase
mod Recorder
