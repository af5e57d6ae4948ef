-- ===== src/Store/Enums.antt =====
-- The enumerations of apps/api/prisma/schema.prisma, with the tests that the services make on them.
use crm_nusrv.Base.{Bool, true, false, Text, codes}

pub data CustomerStatus : Type 0 where
  active inactive : CustomerStatus

pub data SubscriptionStatus : Type 0 where
  active suspended closed : SubscriptionStatus

pub data BillingFrequency : Type 0 where
  monthly quarterly semi_annual annual biennial custom : BillingFrequency

pub data IntegrationEnvironment : Type 0 where
  sandbox production : IntegrationEnvironment

pub data IntegrationKind : Type 0 where
  smtp imap ai : IntegrationKind

pub data HealthStatus : Type 0 where
  unknown healthy degraded unavailable : HealthStatus

pub data RenewalCaseStatus : Type 0 where
  upcoming reminder_cycle awaiting_customer human_review accepted : RenewalCaseStatus
  invoice_draft invoice_pending_publication invoice_published collecting : RenewalCaseStatus
  payment_reported payment_confirmed fulfilled rejected retention : RenewalCaseStatus
  do_not_renew suspension_due suspension_pending_approval : RenewalCaseStatus
  suspension_in_progress suspended reactivation_pending closed error : RenewalCaseStatus

unfoldable pub RenewalCaseStatus-discrete : Discrete RenewalCaseStatus
RenewalCaseStatus-discrete = hlevel

pub data CustomerDecision : Type 0 where
  accepted rejected undecided : CustomerDecision

pub data ActorType : Type 0 where
  user system ai integration : ActorType

pub data ReminderAudience : Type 0 where
  customer internal : ReminderAudience

pub data OutboxStatus : Type 0 where
  queued processing delivered failed cancelled : OutboxStatus

pub data DecisionOutcome : Type 0 where
  skipped_hold skipped_ineligible duplicate_prevented : DecisionOutcome

pub data MessageDirection : Type 0 where
  inbound outbound : MessageDirection

pub data ThreadStatus : Type 0 where
  open_thread human_review resolved : ThreadStatus

pub data ClassificationStatus : Type 0 where
  pending classified human_review resolved failed : ClassificationStatus

pub data AiIntent : Type 0 where
  accept_renewal reject_renewal request_invoice payment_reported request_upgrade : AiIntent
  request_downgrade request_clarification price_dispute complaint other unclear : AiIntent

pub data RoutingAction : Type 0 where
  auto_accept human_review : RoutingAction

pub data RoutingStatus : Type 0 where
  pending processing succeeded skipped failed : RoutingStatus

abbrev pub is_active_customer : CustomerStatus → Bool
is_active_customer CustomerStatus.active = true
is_active_customer CustomerStatus.inactive = false

abbrev pub is_active_subscription : SubscriptionStatus → Bool
is_active_subscription SubscriptionStatus.active = true
is_active_subscription _ = false

abbrev pub is_queued : OutboxStatus → Bool
is_queued queued = true
is_queued _ = false

abbrev pub is_processing : OutboxStatus → Bool
is_processing OutboxStatus.processing = true
is_processing _ = false

-- The name of a status, as the services write it into texts.
abbrev pub status_text : RenewalCaseStatus → Text
status_text RenewalCaseStatus.upcoming = codes "UPCOMING"
status_text RenewalCaseStatus.reminder_cycle = codes "REMINDER_CYCLE"
status_text RenewalCaseStatus.awaiting_customer = codes "AWAITING_CUSTOMER"
status_text RenewalCaseStatus.human_review = codes "HUMAN_REVIEW"
status_text RenewalCaseStatus.accepted = codes "ACCEPTED"
status_text RenewalCaseStatus.invoice_draft = codes "INVOICE_DRAFT"
status_text RenewalCaseStatus.invoice_pending_publication = codes "INVOICE_PENDING_PUBLICATION"
status_text RenewalCaseStatus.invoice_published = codes "INVOICE_PUBLISHED"
status_text RenewalCaseStatus.collecting = codes "COLLECTING"
status_text RenewalCaseStatus.payment_reported = codes "PAYMENT_REPORTED"
status_text RenewalCaseStatus.payment_confirmed = codes "PAYMENT_CONFIRMED"
status_text RenewalCaseStatus.fulfilled = codes "FULFILLED"
status_text RenewalCaseStatus.rejected = codes "REJECTED"
status_text RenewalCaseStatus.retention = codes "RETENTION"
status_text RenewalCaseStatus.do_not_renew = codes "DO_NOT_RENEW"
status_text RenewalCaseStatus.suspension_due = codes "SUSPENSION_DUE"
status_text RenewalCaseStatus.suspension_pending_approval = codes "SUSPENSION_PENDING_APPROVAL"
status_text RenewalCaseStatus.suspension_in_progress = codes "SUSPENSION_IN_PROGRESS"
status_text RenewalCaseStatus.suspended = codes "SUSPENDED"
status_text RenewalCaseStatus.reactivation_pending = codes "REACTIVATION_PENDING"
status_text RenewalCaseStatus.closed = codes "CLOSED"
status_text RenewalCaseStatus.error = codes "ERROR"
