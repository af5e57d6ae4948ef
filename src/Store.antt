-- ===== src/Store.antt =====
-- The database that every service shares: apps/api/prisma/schema.prisma. Identifiers (UUID text
-- columns) are numbers, since the code only compares and orders them; an instant is its
-- milliseconds; `null` is `none`. The columns that no modelled operation reads are left
-- out, also where one writes them (cycleStartDate; reminderRuleId, auditEventId and daysBeforeDue), and so are the JSON columns of an audit event.
pub mod Enums
pub mod Rows
pub mod Samples
use crm_nusrv.Base.{ℕ, Table, List, []}
use Rows.{
  RenewalCase, RenewalHold, Subscription, Customer, EmailAddress, NotificationRule, Outbox,
  MailConfiguration, Thread, EmailMessage, Classification, ClassificationReview, RoutingDecision,
  AuditEvent, HealthEvent, EvaluationDecision,
}

pub record Db : Type 0 where
  pub renewal_cases : Table RenewalCase
  pub holds : Table RenewalHold
  pub decisions : Table EvaluationDecision
  pub subscriptions : Table Subscription
  pub customers : Table Customer
  pub email_addresses : Table EmailAddress
  pub notification_rules : Table NotificationRule
  pub outbox : Table Outbox
  pub mail_configurations : Table MailConfiguration
  pub threads : Table Thread
  pub messages : Table EmailMessage
  pub classifications : Table Classification
  pub reviews : Table ClassificationReview
  pub routing : Table RoutingDecision
  pub health_events : List HealthEvent
  pub audit : List AuditEvent

abbrev pub empty : Db
empty = record {
  renewal_cases = [];
  holds = [];
  decisions = [];
  subscriptions = [];
  customers = [];
  email_addresses = [];
  notification_rules = [];
  outbox = [];
  mail_configurations = [];
  threads = [];
  messages = [];
  classifications = [];
  reviews = [];
  routing = [];
  health_events = [];
  audit = [];
}
