-- ===== src/Core.antt =====
-- internal/core: the domain of the program, free of input and output.
pub mod Spelling
pub mod SourceType
pub mod VacancyStatus
pub mod ApplicationStatus
pub mod Types
pub mod Decimal
pub mod Normalize
pub mod Lists
pub mod Filters
pub mod Scoring
pub mod Resume
pub mod CoverLetter
pub mod Dedup
