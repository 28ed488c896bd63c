-- ===== src/Cron.antt =====
-- Durable cron schedules of ironqueue/src/job.rs, ironqueue/src/database.rs and
-- ironqueue/src/sweeper.rs.
pub mod Search
pub mod Crontab
pub mod Next
pub mod Bisection
pub mod Previous
pub mod Entry
pub mod Tables
pub mod Reconcile
pub mod Schedule
pub mod Pass
pub mod Purge
pub mod Plan
pub mod Concluding
pub mod Progress
pub mod Claims
pub mod Spent
pub mod Steps
pub mod Once
pub mod Revisions
pub mod Agreement
pub mod Window
