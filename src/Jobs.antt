-- ===== src/Jobs.antt =====
-- services/jobs-service/src/jobs: the pipeline of job applications.
pub mod Db
pub mod Service
pub mod Calls
pub mod Changes
pub mod History
pub mod Tenancy
mod Tests
