-- ===== src/Examples.antt =====
-- The theorems applied at concrete inputs, and the float64 of these inputs: whole numbers.
pub mod Whole
mod OfBatch
mod OfWorker
mod OfEvents
mod OfCallers
mod OfTransport
mod OfAgent
mod OfSystem
mod OfConfig
