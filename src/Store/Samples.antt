-- ===== src/Store/Samples.antt =====
-- A small database for the examples: a case due in 100 days with one reminder queued.
use crm_nusrv.Base.{true, false, some, none, [], ◌∷◌, codes}
use crm_nusrv.Store.{Db, empty}
use crm_nusrv.Store.Enums.{
  CustomerStatus, SubscriptionStatus, BillingFrequency, IntegrationEnvironment, HealthStatus,
  RenewalCaseStatus, CustomerDecision, ReminderAudience, OutboxStatus,
}
use crm_nusrv.Store.Rows.{
  RenewalCase, RenewalHold, Subscription, Customer, EmailAddress, MailConfiguration, Outbox,
}

abbrev pub sample_case : RenewalCase
sample_case = record {
  subscription_id = 1;
  due_date = 9000000;
  status = RenewalCaseStatus.reminder_cycle;
  customer_decision = CustomerDecision.undecided;
  accepted_at = none;
  do_not_renew_at = none;
  fulfilled_at = none;
  last_evaluated_at = none;
}

abbrev pub sample_hold : RenewalHold
sample_hold = record {
  renewal_case_id = 1;
  reason = codes "asked by phone";
  active = true;
  stops_customer_reminders = false;
  stops_internal_notifications = true;
  expires_at = some 5000;
  created_by_id = 7;
  released_by_id = none;
  released_at = none;
}

abbrev pub sample_subscription : Subscription
sample_subscription = record {
  customer_id = 1;
  status = SubscriptionStatus.active;
  start_date = 0;
  renewal_date = 9000000;
  billing_frequency = BillingFrequency.annual;
  renewal_interval_months = none;
}

abbrev pub sample_customer : Customer
sample_customer = record {
  billing_entity_id = 1;
  status = CustomerStatus.active;
  primary_email = some "old@client.sa";
}

abbrev pub sample_address : EmailAddress
sample_address = record { customer_id = 1; email = "info@client.sa"; primary = true; active = true }

abbrev pub sample_mailbox : MailConfiguration
sample_mailbox = record {
  billing_entity_id = some 1;
  enabled = true;
  environment = IntegrationEnvironment.sandbox;
  outbound_send_enabled = true;
  outbound_send_cutover_at = some 10;
  from_address = "billing@nusrv.sa";
  last_health_status = HealthStatus.unknown;
  inbound_sync_enabled = true;
  imap_folder = "INBOX";
  last_sync_uid_validity = none;
  last_sync_uid = none;
  last_synced_at = none;
}

abbrev pub sample_row : Outbox
sample_row = record {
  customer_id = 1;
  subscription_id = 1;
  renewal_case_id = 1;
  notification_rule_id = none;
  audience = ReminderAudience.customer;
  recipient = "info@client.sa";
  subject = "Renewal";
  body = "Your plan renews soon.";
  status = OutboxStatus.queued;
  scheduled_at = 100;
  attempts = 0;
  last_attempt_at = none;
  last_error = none;
  idempotency_key = "1:0:14";
  email_message_id = none;
  message_id_header = none;
}

abbrev pub sample_db : Db
sample_db = record empty {
  renewal_cases = (1, sample_case) ∷ [];
  holds = (1, sample_hold) ∷ [];
  subscriptions = (1, sample_subscription) ∷ [];
  customers = (1, sample_customer) ∷ [];
  email_addresses = (1, sample_address) ∷ [];
  mail_configurations = (1, sample_mailbox) ∷ [];
  outbox = (1, sample_row) ∷ [];
}
