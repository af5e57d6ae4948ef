-- ===== src/Mail/Examples.antt =====
-- The theorems on mailboxes, recipients, errors and texts, applied to a small database.
use crm_nusrv.Base.{
  ◌≡◌, ◌⊎◌, ◌↔◌, ◌≤◌, refl, true, false, none, some, [], ◌∷◌, codes, length, find_first,
}
use crm_nusrv.Store.Samples.{
  sample_db, sample_mailbox, sample_row, sample_customer, sample_subscription, sample_case,
  sample_hold,
}
use crm_nusrv.Mail.SmtpErrors.{
  SmtpError, classify_smtp_error, is_connection_failure, message, infrastructure,
}
use crm_nusrv.Mail.SmtpErrors.Precedence.{IsOfMailbox, infrastructure_iff}
use crm_nusrv.Mail.Configuration.{
  Setting, Mailbox, usable, resolve_pinned, resolve_for_outbound, is_override, is_global,
}
use crm_nusrv.Mail.Configuration.Usable.{MaySend, resolve_pinned_iff, resolve_for_outbound_choice}
use crm_nusrv.Mail.Recipient.{ResolvedRecipient, normalized_primary, resolve_primary_recipient}
use crm_nusrv.Mail.Recipient.Current.{Evidence, resolve_primary_recipient-Evidence}
use crm_nusrv.Mail.Sanitize.{sanitize_error}
use crm_nusrv.Mail.Sanitize.Redacted.{ShortRuns, sanitize_error_safe}
use crm_nusrv.Mail.Outbound.{Context, Eligible, eligible, evaluate_eligibility}

abbrev rejected : SmtpError
rejected = record {
  message = codes "550 no such user";
  code = some "EENVELOPE";
  command = some (codes "RCPT TO");
  response_code = some 550;
}

rejected_at_rcpt : (classify_smtp_error rejected).terminal ≡ true
unfolding classify_smtp_error is_connection_failure crm_nusrv.Mail.SmtpErrors.stage_starts
    crm_nusrv.Mail.SmtpErrors.is_permanent
rejected_at_rcpt = refl

-- A refused login comes with a reply code of the 500s.
abbrev bad_login : SmtpError
bad_login = record {
  message = codes "535 bad credentials";
  code = some "EAUTH";
  command = some (codes "AUTH PLAIN");
  response_code = some 535;
}

login_fails : is_connection_failure bad_login ≡ true
unfolding is_connection_failure
login_fails = refl

infrastructure_iff_example :
    ((classify_smtp_error bad_login).health_impact ≡ infrastructure) ↔ IsOfMailbox bad_login
infrastructure_iff_example = infrastructure_iff bad_login

abbrev setting : Setting
setting = record { node_env = some "staging"; now = 1000; check_cutover = true }

abbrev box : Mailbox
box = (1, sample_mailbox)

resolve_pinned_iff_example :
    (resolve_pinned setting (some box) ≡ usable box)
    ↔ ((box ≡ box) × MaySend setting sample_mailbox)
resolve_pinned_iff_example = resolve_pinned_iff setting box box

own_box : resolve_for_outbound setting 1 sample_db.mail_configurations ≡ usable box
unfolding resolve_for_outbound is_override crm_nusrv.Mail.Configuration.apply_outbound_guards
    crm_nusrv.Mail.Configuration.is_environment_allowed crm_nusrv.Mail.Configuration.reached
own_box = refl

resolve_for_outbound_choice_example :
    MaySend setting sample_mailbox
    × ((find_first (is_override 1) sample_db.mail_configurations ≡ some box)
        ⊎ ((find_first (is_override 1) sample_db.mail_configurations ≡ none)
            × (find_first is_global sample_db.mail_configurations ≡ some box)))
resolve_for_outbound_choice_example =
    resolve_for_outbound_choice setting 1 sample_db.mail_configurations box own_box

abbrev current : ResolvedRecipient
current = record { email = "info@client.sa"; source = normalized_primary }

found_current : resolve_primary_recipient 1 sample_db ≡ some current
unfolding resolve_primary_recipient
found_current = refl

resolve_primary_recipient-Evidence_example : Evidence 1 sample_db current
resolve_primary_recipient-Evidence_example =
    resolve_primary_recipient-Evidence 1 sample_db current found_current

sanitize_error_safe_example :
    (length (sanitize_error (codes "auth QUJDREVGR0hJSktMTU5PUFFSU1RVVldYWVphYmNkZWZn failed"))
      ≤ 1000)
    × ShortRuns 0
        (sanitize_error (codes "auth QUJDREVGR0hJSktMTU5PUFFSU1RVVldYWVphYmNkZWZn failed"))
sanitize_error_safe_example =
    sanitize_error_safe (codes "auth QUJDREVGR0hJSktMTU5PUFFSU1RVVldYWVphYmNkZWZn failed")

abbrev context : Context
context = record {
  row = sample_row;
  customer = sample_customer;
  subscription = sample_subscription;
  renewal_case = sample_case;
  holds = (1, sample_hold) ∷ [];
  notification_rule = none;
}

abbrev to_send : Eligible
to_send = record {
  mailbox = box;
  recipient = "info@client.sa";
  recipient_changed = false;
  old_recipient = "info@client.sa";
}

may_send : evaluate_eligibility setting context 1000 sample_db ≡ eligible to_send
unfolding evaluate_eligibility crm_nusrv.Mail.Outbound.resolve_mail_configuration_for_row
    resolve_for_outbound is_override crm_nusrv.Mail.Configuration.apply_outbound_guards
    crm_nusrv.Mail.Configuration.is_environment_allowed crm_nusrv.Mail.Configuration.reached
    crm_nusrv.Renewal.Policy.is_reminder_eligible crm_nusrv.Renewal.Policy.aggregate_effective_holds
    crm_nusrv.Renewal.Policy.is_effective_hold resolve_primary_recipient
may_send = refl
