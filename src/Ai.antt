-- ===== src/Ai.antt =====
-- apps/api/src/modules/ai: what is done with a classified message of a customer.
pub mod Eligibility
pub mod Routing
pub mod Examples
pub mod BatchExamples
