-- ===== src/Renewal.antt =====
-- The life of a renewal case: apps/api/src/modules/renewal-cases.
pub mod Transition
pub mod Cases
pub mod Policy
pub mod Milestone
pub mod Engine
pub mod Enrolment
pub mod Examples
pub mod ReminderExamples
pub mod EngineExamples
