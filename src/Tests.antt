-- ===== src/Tests.antt =====
-- Runs of the model at concrete inputs, and each theorem at an input that meets its hypotheses.
mod Jobs
mod Control
mod Approvals
mod Tokens
mod Queue
mod Slots
mod Gates
mod Decisions
mod Labels
mod Sse
mod Service
mod Runs
mod Cancel
mod Repos
