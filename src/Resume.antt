-- ===== src/Resume.antt =====
-- services/resume-service/src: uploaded files, tailored resumes and the base resume.
pub mod Files
pub mod Controller
pub mod Versions
pub mod Base
pub mod Objects
mod Tests
