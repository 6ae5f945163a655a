-- ===== src/Tests.antt =====
-- Runs of the model at concrete inputs.
mod Loop
mod Projections
mod Contexts
mod Calls
mod Recoveries
mod Memory
mod Revisions
mod Directory
