-- ===== src/Jobs.antt =====
-- lib/src/job: jobs, what is done when one fails, the pipeline that runs them, and the scheduler.
pub mod Types
pub mod Recovery
pub mod History
pub mod Progress
pub mod Pipeline
pub mod Scheduler
