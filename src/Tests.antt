-- ===== src/Tests.antt =====
-- The theorems at concrete inputs, and runs of the program.
mod Setup
mod Flow
mod Lives
mod Times
mod Client
mod Ledger
mod SignIn
mod Start
mod Refusals
mod Interleaved
mod Members
