-- ===== src/Lib.antt =====
-- nusrv CRM: the renewal workflow, its outbound mail and its inbound mail.
--
-- The program keeps one renewal case for each due date of a subscription. A renewal engine finds
-- the reminder rule that applies and queues messages in an outbox; workers take rows of the
-- outbox, check again whether and to whom each may be sent, and hand it to an SMTP transport; the
-- staff moves cases and puts them on hold; workers read the mailboxes by IMAP, store each message
-- once and put it into the thread that it belongs to; an AI routing step may accept a renewal from
-- a classified message. All of these share one database, whose rows are the state of the model.
--
-- Files, with the code that they model (paths from the repository's root):
--   Base, Base/*            lists, tables, texts as code units, exceptions; no code of the program
--   Store, Store/*          apps/api/prisma/schema.prisma: the tables and enumerations in use
--   Calendar, Calendar/*    packages/shared/src/index.ts (addCalendarMonths) and cycleStartDate of
--                           apps/api/src/modules/renewal-cases/renewal-policy.ts
--   Renewal/Transition      renewal-cases/renewal-transition-policy.ts: `is_legal` is
--                           isLegalRenewalCaseTransition, `apply_transition` is
--                           applyRenewalCaseTransition
--   Renewal/Cases           renewal-cases/renewal-cases.service.ts: `mark` is the four mark methods,
--                           `create_hold` and `release_hold` are createHold and releaseHold
--   Renewal/Policy          renewal-cases/renewal-policy.ts: holds and reminder eligibility
--   Renewal/Milestone       resolveApplicableCustomerMilestone of renewal-engine.service.ts
--   Mail/Configuration      mail/mail-configuration-resolver.service.ts, mail-environment-guard.ts
--   Mail/Recipient          customers/customer-email-resolution.service.ts
--   Mail/SmtpErrors         mail/smtp-error-classification.ts
--   Mail/Sanitize           sanitizeError of mail/mail-outbound.service.ts
--   Mail/Outbound, */Worker mail/mail-outbound.service.ts: `step` is processOne, a database access at
--                           a time, with claim, evaluateEligibility, materialize and the guarded
--                           writes (Writes, Materialize, Recording)
--   Mail/Outbound/Batch     processBatch of the same file
--   Mail/Lease              any number of such workers at one row, with the clock, crashes and the
--                           rest of the application: `Step` and `Reach`
--   Mail/Threads            mail/mail-thread-resolution.service.ts
--   Mail/MessageIds         mail/mail-message-correlation.util.ts
--   Mail/ImapIdentity       mail/imap-identity.util.ts
--   Mail/InboundBody        mail/mail-inbound-body.util.ts
--   Mail/Sender             mail/mail-inbound-sender-resolution.service.ts, mail-address.util.ts
--   Mail/Correlation        mail/mail-inbound-correlation.service.ts, with Mail/ReplyMatch
--                           (matchByReplyHeaders) and Mail/ThreadUse (useExistingThread,
--                           createGeneralThread)
--   Mail/Inbound            mail/mail-inbound-ingest.service.ts: ingestOneMessage; Inbound/Worker has
--                           syncOneConfig, an access at a time, with Inbound/Sync for its writes
--                           and mail-imap-health.service.ts, and Inbound/Batch has syncAll
--   Mail/Inbound/System     any number of such workers at one mailbox, beside its mail server,
--                           crashes and the rest of the application: `Step` and `Reach`
--   Renewal/Engine          renewal-cases/renewal-engine.service.ts: ensureCase, queueOutbox and
--                           recordDecision
--   Renewal/Enrolment       enrollOverdueSubscriptions of the same file, a page at a time
--   Ai/Eligibility          ai/ai-routing-eligibility.util.ts
--   Ai/Routing              ai/ai-routing.service.ts: `process_one` is processOne, with the two
--                           executions, and what others do in its gaps (`Others`)
--   Ai/Routing/Batch        processBatch of the same file
--
-- How the state corresponds: `Db` is the database, a table is an association list by primary key,
-- and an operation takes the database and returns it with its answer, or an exception. An
-- operation that reads before its transaction takes two databases, so nothing is assumed of what
-- happens between. A statement of SQL, and a transaction, is one access; the reads of one
-- evaluateEligibility are taken at one instant, and so are a write and the audit or health event
-- that follows it, and the claim of a routing decision with the reads of the decision after it.
-- processOne's read of the clock and claim's UPDATE are one access, and the reads of
-- executeAutoAccept (classification, latest classification, message, case, review) are taken from
-- one snapshot.
--
-- The SHA-256 hash of an idempotency key and of the key of a message, and the text of an id, are
-- parameters; what is said of stored mail needs them to be injective, and the reader to answer
-- with the messages past the cursor, in order and at most a batch. A mailbox's server never gives
-- a UID again, and a message is not deleted from it; a unique key of the schema is a test before
-- the insert, and a new primary key is larger than those in its table.
--
-- Bounds: identifiers are numbers, since the code only compares and orders them; instants are
-- whole milliseconds, which the columns keep exactly; numbers have no upper bound. A worker's
-- accesses are a list, and twelve are enough (Mail/Outbound/Worker/Runs), or 202 for a run of a
-- mailbox (Mail/Inbound/Batch/Ends); the pages of the enrolment run on fuel, and one more than the
-- number of subscriptions is enough (Renewal/Enrolment/Visits).
--
-- Not modelled: JSON columns of audit events, deletion of rows, the recovery from a unique
-- violation where statements are atomic, the transport itself (an input gives what it throws, if
-- anything), letters beyond ASCII in toUpperCase and toLowerCase, a character that slice cuts in
-- two, the collation of the columns but for case (a case is found by the exact text of its id),
-- the columns that nothing modelled reads (cycleStartDate, reminderRuleId, auditEventId,
-- daysBeforeDue), dates before the year 100, the reader of mailboxes; and the parts named in the
-- repository that are user interface, import, identity, remote models and plain create-read-update
-- services.
pub mod Base
pub mod Store
pub mod Renewal
pub mod Calendar
pub mod Mail
pub mod Ai
