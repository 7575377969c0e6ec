-- ===== src/Resources.antt =====
-- resources/: what a job may use. Quantities are the non-negative integers that the guards require.
pub mod Threads
pub mod Pressure
pub mod Budgets
pub mod Usage
pub mod Broker
