-- ===== src/Mail/Outbound.antt =====
-- apps/api/src/modules/mail/mail-outbound.service.ts: the outbox worker. This file has its types,
-- the claim and the eligibility of a row; `Writes` has the guarded writes, `Worker` the steps of
-- `processOne` and `Batch` the scan.
pub mod Writes
pub mod Materialize
pub mod Recording
pub mod Guarded
pub mod Eligibility
pub mod Worker
pub mod Batch
use crm_nusrv.Base.{
  ℕ, ◌+◌, ◌*◌, Bool, true, false, not, ◌&&◌, ◌||◌, Option, none, some, String, Text, codes, List,
  [], ◌∷◌, ◌++◌, Table, find, matches, update_many, ltb, ◌==◌, str_eq, if◌then◌else◌,
}
use crm_nusrv.Store.{Db}
use crm_nusrv.Store.Enums.{
  OutboxStatus, ReminderAudience, RenewalCaseStatus, ActorType, is_active_customer,
  is_active_subscription, is_queued, is_processing,
}
use crm_nusrv.Store.Rows.{
  Outbox, Customer, Subscription, RenewalCase, NotificationRule, AuditEvent, Thread,
}
use crm_nusrv.Renewal.Policy.{Hold, active_holds, is_reminder_eligible, aggregate_effective_holds}
use crm_nusrv.Mail.Configuration.{
  Mailbox, Resolution, usable, unusable, UnusableReason, Setting, resolve_pinned,
  resolve_for_outbound,
}
use crm_nusrv.Mail.Threads.{thread_of}
use crm_nusrv.Mail.Recipient.{ResolvedRecipient, resolve_primary_recipient}

-- `STALE_PROCESSING_LEASE_MS`
abbrev pub stale_processing_lease_ms : ℕ
stale_processing_lease_ms = 10 * 60 * 1000

-- `lastAttemptAt < staleThreshold(now)`, false on `null`
abbrev pub is_stale : Option ℕ → ℕ → Bool
is_stale none now = false
is_stale (some t) now = ltb (t + stale_processing_lease_ms) now

unfoldable pub claimable : ℕ → Outbox → Bool
claimable now row =
    is_queued row.status || (is_processing row.status && is_stale row.last_attempt_at now)

abbrev pub claimed_by : ℕ → Outbox → Outbox
claimed_by now row = record row { status = OutboxStatus.processing; last_attempt_at = some now }

-- The `updateMany` of `claim`, with whether its count is 1.
unfoldable pub claim : ℕ → ℕ → Db → Db × Bool
claim id now db = (
  record db { outbox = update_many id (claimable now) (claimed_by now) db.outbox },
  matches id (claimable now) db.outbox,
)

-- The read of `claim` that follows it: the lease token.
unfoldable pub read_token : ℕ → Db → Option ℕ
read_token id db = elim (find id db.outbox) [ none ↦ none | some row ↦ row.last_attempt_at ]

-- `loadContext`, with `outboxContextInclude`
pub record Context : Type 0 where
  pub row : Outbox
  pub customer : Customer
  pub subscription : Subscription
  pub renewal_case : RenewalCase
  pub holds : List Hold
  pub notification_rule : Option NotificationRule

infixl 5 ◌>>=◌
abbrev ◌>>=◌ {ℓ κ} : {A : Type ℓ} {B : Type κ} → Option A → (A → Option B) → Option B
none >>= f = none
some a >>= f = f a

abbrev rule_of : Option ℕ → Table NotificationRule → Option NotificationRule
rule_of none rules = none
rule_of (some k) rules = find k rules

unfoldable pub load_context : ℕ → Db → Option Context
load_context id db = do
  row ← find id db.outbox
  customer ← find row.customer_id db.customers
  subscription ← find row.subscription_id db.subscriptions
  renewal_case ← find row.renewal_case_id db.renewal_cases
  some (record {
    row = row;
    customer = customer;
    subscription = subscription;
    renewal_case = renewal_case;
    holds = active_holds row.renewal_case_id db.holds;
    notification_rule = rule_of row.notification_rule_id db.notification_rules;
  })

abbrev with_id : ℕ → Db → Option Mailbox
with_id k db = elim (find k db.mail_configurations) [ none ↦ none | some c ↦ some (k, c) ]

-- `resolveMailConfigurationForRow`
unfoldable pub resolve_mail_configuration_for_row : Setting → Context → Db → Resolution
resolve_mail_configuration_for_row s ctx db = elim (thread_of ctx.row.renewal_case_id db.threads) [
  | some (_, t) ↦ resolve_pinned s (with_id t.mail_configuration_id db)
  | none ↦ resolve_for_outbound s ctx.customer.billing_entity_id db.mail_configurations
]

pub record Eligible : Type 0 where
  pub mailbox : Mailbox
  pub recipient : String
  pub recipient_changed : Bool
  pub old_recipient : String

pub data Reason : Type 0 where
  mail_configuration_unusable : UnusableReason → Reason
  internal_notification_hold customer_inactive subscription_inactive : Reason
  case_not_reminder_eligible : RenewalCaseStatus → Reason
  customer_reminder_hold no_current_recipient : Reason
  recipient_unavailable_after_attempt recipient_changed_after_attempt : Reason

pub data EligibilityResult : Type 0 where
  eligible : Eligible → EligibilityResult
  defer cancel : Reason → EligibilityResult

abbrev suppresses : Option NotificationRule → Bool
suppresses none = true
suppresses (some rule) = rule.suppress_on_workflow_hold

abbrev same_recipient : Mailbox → String → String → EligibilityResult
same_recipient box resolved old =
    eligible (record {
      mailbox = box;
      recipient = resolved;
      recipient_changed = false;
      old_recipient = old;
    })

abbrev new_recipient : Mailbox → String → String → EligibilityResult
new_recipient box old new =
    eligible
      (record { mailbox = box; recipient = new; recipient_changed = true; old_recipient = old })

-- The recipient of a reminder, before and after the first attempt.
unfoldable pub check_recipient : Mailbox → Outbox → Option ResolvedRecipient → EligibilityResult
check_recipient box row none =
    if ltb 0 row.attempts
    then cancel recipient_unavailable_after_attempt
    else defer no_current_recipient
check_recipient box row (some r) =
    if str_eq r.email row.recipient
    then same_recipient box r.email row.recipient
    else if ltb 0 row.attempts
    then cancel recipient_changed_after_attempt
    else new_recipient box row.recipient r.email

-- A reminder to the customer.
unfoldable pub evaluate_customer :
    Mailbox → Context → ℕ → Option ResolvedRecipient → EligibilityResult
unfolding check_recipient
evaluate_customer box ctx now resolved =
    if not (is_active_customer ctx.customer.status)
    then cancel customer_inactive
    else if not (is_active_subscription ctx.subscription.status)
    then cancel subscription_inactive
    else if not (is_reminder_eligible ctx.renewal_case.status)
    then cancel (case_not_reminder_eligible ctx.renewal_case.status)
    else if (aggregate_effective_holds ctx.holds now).stop_customer_reminders
    then defer customer_reminder_hold
    else check_recipient box ctx.row resolved

-- A note to the staff.
unfoldable pub evaluate_internal : Mailbox → Context → ℕ → EligibilityResult
evaluate_internal box ctx now =
    if (aggregate_effective_holds ctx.holds now).stop_internal_notifications
      && suppresses ctx.notification_rule
    then defer internal_notification_hold
    else same_recipient box ctx.row.recipient ctx.row.recipient

abbrev evaluate_for :
    ReminderAudience → Mailbox → Context → ℕ → Option ResolvedRecipient → EligibilityResult
evaluate_for ReminderAudience.internal box ctx now resolved = evaluate_internal box ctx now
evaluate_for ReminderAudience.customer box ctx now resolved = evaluate_customer box ctx now resolved

-- `evaluateEligibility`; the setting has the clock at the call, `now` is the start of `processOne`
-- or the time of the second check.
unfoldable pub evaluate_eligibility : Setting → Context → ℕ → Db → EligibilityResult
unfolding evaluate_customer evaluate_internal
evaluate_eligibility s ctx now db = elim (resolve_mail_configuration_for_row s ctx db) [
  | unusable reason ↦ defer (mail_configuration_unusable reason)
  | usable box ↦
      evaluate_for ctx.row.audience box ctx now (resolve_primary_recipient ctx.row.customer_id db)
]
