-- ===== src/Store.antt =====
-- server.py, class Store: the SQLite tables that the collector writes, and the writes.
pub mod Timeline
pub mod Users
pub mod Usage
pub mod Capacity
pub mod Events
pub mod Host
pub mod Gpu
pub mod Recorder
