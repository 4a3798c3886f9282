-- ===== src/Collector.antt =====
-- server.py, the class Collector: how a probe's payload is checked and published, what a failure does
-- to the schedule, and the tick that collects finished probes and starts due ones.
pub mod ErrorMap
pub mod Readings
pub mod Handling
pub mod Inventory
pub mod Passing
pub mod Outcomes
pub mod Delays
pub mod Tick
pub mod Workers
