-- ===== src/Store/Rows.antt =====
-- The rows of the tables of apps/api/prisma/schema.prisma that the modelled services read or write.
use crm_nusrv.Base.{Text, ℕ, String, Bool, Option, List}
use crm_nusrv.Store.Enums.{
  CustomerStatus, SubscriptionStatus, BillingFrequency, IntegrationEnvironment, IntegrationKind,
  HealthStatus, RenewalCaseStatus, CustomerDecision, ActorType, ReminderAudience, OutboxStatus,
  DecisionOutcome, MessageDirection, ThreadStatus, ClassificationStatus, AiIntent, RoutingAction,
  RoutingStatus,
}

pub record RenewalCase : Type 0 where
  pub subscription_id : ℕ
  pub due_date : ℕ
  pub status : RenewalCaseStatus
  pub customer_decision : CustomerDecision
  pub accepted_at : Option ℕ
  pub do_not_renew_at : Option ℕ
  pub fulfilled_at : Option ℕ
  pub last_evaluated_at : Option ℕ

pub record RenewalHold : Type 0 where
  pub renewal_case_id : ℕ
  pub reason : Text
  pub active : Bool
  pub stops_customer_reminders : Bool
  pub stops_internal_notifications : Bool
  pub expires_at : Option ℕ
  pub created_by_id : ℕ
  pub released_by_id : Option ℕ
  pub released_at : Option ℕ

pub record EvaluationDecision : Type 0 where
  pub renewal_case_id : ℕ
  pub decision_key : String
  pub outcome : DecisionOutcome
  pub days_before_due : ℕ

pub record Subscription : Type 0 where
  pub customer_id : ℕ
  pub status : SubscriptionStatus
  pub start_date : ℕ
  pub renewal_date : ℕ
  pub billing_frequency : BillingFrequency
  pub renewal_interval_months : Option ℕ

pub record Customer : Type 0 where
  pub billing_entity_id : ℕ
  pub status : CustomerStatus
  pub primary_email : Option String

pub record EmailAddress : Type 0 where
  pub customer_id : ℕ
  pub email : String
  pub primary : Bool
  pub active : Bool

pub record NotificationRule : Type 0 where
  pub enabled : Bool
  pub suppress_on_workflow_hold : Bool

pub record Outbox : Type 0 where
  pub customer_id : ℕ
  pub subscription_id : ℕ
  pub renewal_case_id : ℕ
  pub notification_rule_id : Option ℕ
  pub audience : ReminderAudience
  pub recipient : String
  pub subject : String
  pub body : String
  pub status : OutboxStatus
  pub scheduled_at : ℕ
  pub attempts : ℕ
  pub last_attempt_at : Option ℕ
  pub last_error : Option Text
  pub idempotency_key : String
  pub email_message_id : Option ℕ
  pub message_id_header : Option String

pub record MailConfiguration : Type 0 where
  pub billing_entity_id : Option ℕ
  pub enabled : Bool
  pub environment : IntegrationEnvironment
  pub outbound_send_enabled : Bool
  pub outbound_send_cutover_at : Option ℕ
  pub from_address : String
  pub last_health_status : HealthStatus
  pub inbound_sync_enabled : Bool
  pub imap_folder : String
  pub last_sync_uid_validity : Option ℕ
  pub last_sync_uid : Option ℕ
  pub last_synced_at : Option ℕ

pub record Thread : Type 0 where
  pub renewal_case_id : Option ℕ
  pub customer_id : Option ℕ
  pub mail_configuration_id : ℕ
  pub subject : String
  pub status : ThreadStatus
  pub last_message_at : ℕ

pub record EmailMessage : Type 0 where
  pub thread_id : ℕ
  pub customer_id : Option ℕ
  pub renewal_case_id : Option ℕ
  pub direction : MessageDirection
  pub subject : String
  pub from_address : String
  pub to_addresses : List String
  pub body_text : String
  pub occurred_at : ℕ
  pub mail_configuration_id : Option ℕ
  pub external_message_id : Option String
  pub in_reply_to : Option String
  pub references : Option String
  pub body_html : Option String
  pub imap_folder : Option String
  pub imap_uid : Option ℕ
  pub imap_uid_validity : Option ℕ
  pub imap_identity_key : Option String
  pub classification_status : ClassificationStatus

pub record Classification : Type 0 where
  pub email_message_id : ℕ
  pub intent : AiIntent
  pub requires_human_review : Bool
  pub created_at : ℕ

pub record ClassificationReview : Type 0 where
  pub ai_classification_id : ℕ

pub record RoutingDecision : Type 0 where
  pub ai_classification_id : ℕ
  pub action : RoutingAction
  pub status : RoutingStatus
  pub attempts : ℕ
  pub last_attempt_at : Option ℕ
  pub result_code : Option String
  pub completed_at : Option ℕ

pub record AuditEvent : Type 0 where
  pub actor_type : ActorType
  pub actor_id : Option ℕ
  pub event_key : String
  pub subject_type : String
  pub subject_id : ℕ

pub record HealthEvent : Type 0 where
  pub integration : IntegrationKind
  pub mail_configuration_id : ℕ
  pub status : HealthStatus
  pub message : Text
