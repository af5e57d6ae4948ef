-- ===== src/Mail.antt =====
-- Mail: apps/api/src/modules/mail.
pub mod MessageIds
pub mod Sender
pub mod ReplyMatch
pub mod ThreadUse
pub mod Correlation
pub mod ImapIdentity
pub mod InboundBody
pub mod Inbound
pub mod Threads
pub mod SmtpErrors
pub mod Lease
pub mod Outbound
pub mod Sanitize
pub mod Recipient
pub mod Configuration
pub mod Examples
pub mod BatchExamples
pub mod InboundExamples
pub mod MessageExamples
