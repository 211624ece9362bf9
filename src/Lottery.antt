-- ===== src/Lottery.antt =====
-- The lottery scheduling class: p3/linux-2.6.32.27/kernel/sched_lottery.c.
pub mod Task
pub mod EventLog
pub mod Linked
pub mod Tree
pub mod Class
