-- ===== src/History.antt =====
-- What the statements do to a job over its life, and what follows for every history of statements.
pub mod Moves
pub mod Lawful
pub mod Removals
pub mod Checks
pub mod Calls
pub mod Evolution
pub mod Additions
pub mod Occurrences
pub mod Performs
pub mod Induction
pub mod Integrity
pub mod Outcome
pub mod Target
pub mod Refusal
pub mod Fence
pub mod Fencing
pub mod Withdrawal
pub mod Dedupe
pub mod Settlement
pub mod Verdicts
pub mod Unacknowledged
