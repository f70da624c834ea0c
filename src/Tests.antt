-- ===== src/Tests.antt =====
-- Tests of the model: a simulated board, and each theorem applied to it.
mod Bench
mod Chips
mod Calls
mod Disks
mod Resumes
mod Mounts
mod Joins
mod SelfTests
mod Failures
mod Tours
mod Protections
mod Clears
mod Balances
mod Formatting
