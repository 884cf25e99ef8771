-- ===== src/Tests.antt =====
-- Runs of the model at concrete inputs, and the theorems at inputs that meet their hypotheses.
mod LfHash
mod LfHashThreads
mod ClhtLf
mod ClhtLfTable
mod ClhtLb
mod ClhtLbRes
mod ClhtPacked
mod ClhtGc
mod Workload
mod Driver
