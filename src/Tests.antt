-- ===== src/Tests.antt =====
-- Runs of the model on concrete inputs, and the theorems at inputs that meet their hypotheses.
pub mod Data
pub mod Signals
pub mod Slots
pub mod Queues
pub mod Sweeps
pub mod Waits
pub mod Spins
pub mod Calls
pub mod Locks
pub mod Polls
pub mod Blocks
pub mod Histories
pub mod Opens
pub mod Autos
pub mod Tables
pub mod Holds
