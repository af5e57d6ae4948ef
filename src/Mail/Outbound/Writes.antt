-- ===== src/Mail/Outbound/Writes.antt =====
-- The writes of mail-outbound.service.ts. Each is guarded by the worker's lease token, and answers
-- whether the guard matched.
use crm_nusrv.Base.{
  ℕ, suc, Bool, true, false, ◌&&◌, Option, none, some, String, Text, codes, [], ◌∷◌, ◌++◌, Table,
  matches, update_many, ◌==◌, if◌then◌else◌,
}
use crm_nusrv.Store.{Db}
use crm_nusrv.Store.Enums.{OutboxStatus, ActorType, is_processing, status_text}
use crm_nusrv.Store.Rows.{Outbox, EmailMessage, AuditEvent}
use crm_nusrv.Mail.Configuration.{unusable_text}
use crm_nusrv.Mail.Outbound.{Reason}

abbrev pub is_token : Option ℕ → ℕ → Bool
is_token none token = false
is_token (some t) token = t == token

-- `status: PROCESSING, lastAttemptAt: expectedLeaseTimestamp`
abbrev pub owned : ℕ → Outbox → Bool
owned token row = is_processing row.status && is_token row.last_attempt_at token

abbrev pub event : String → String → ℕ → AuditEvent
event key subject id = record {
  actor_type = ActorType.system;
  actor_id = none;
  event_key = key;
  subject_type = subject;
  subject_id = id;
}

abbrev pub log : AuditEvent → Db → Db
log e db = record db { audit = db.audit ++ e ∷ [] }

abbrev pub write : ℕ → (Outbox → Bool) → (Outbox → Outbox) → Db → Db
write id p f db = record db { outbox = update_many id p f db.outbox }

-- The text of a reason, which is kept as the row's last error.
abbrev pub reason_text : Reason → Text
reason_text (Reason.mail_configuration_unusable r) =
    codes "mail_configuration_unusable:" ++ unusable_text r
reason_text Reason.internal_notification_hold = codes "internal_notification_hold"
reason_text Reason.customer_inactive = codes "customer_inactive"
reason_text Reason.subscription_inactive = codes "subscription_inactive"
reason_text (Reason.case_not_reminder_eligible s) =
    codes "case_not_reminder_eligible:" ++ status_text s
reason_text Reason.customer_reminder_hold = codes "customer_reminder_hold"
reason_text Reason.no_current_recipient = codes "no_current_recipient"
reason_text Reason.recipient_unavailable_after_attempt = codes "recipient_unavailable_after_attempt"
reason_text Reason.recipient_changed_after_attempt = codes "recipient_changed_after_attempt"

abbrev pub to_status : OutboxStatus → Option Text → Outbox → Outbox
to_status status error row = record row { status = status; last_error = error }

unfoldable pub defer_to_queued : ℕ → Reason → ℕ → Db → Db × Bool
defer_to_queued id reason token db = (
  write id (owned token) (to_status OutboxStatus.queued (some (reason_text reason))) db,
  matches id (owned token) db.outbox,
)

unfoldable pub cancel_row : ℕ → Reason → ℕ → Db → Db × Bool
cancel_row id reason token db =
    if matches id (owned token) db.outbox
    then (
      log (event "mail.outbox.cancelled" "CommunicationOutbox" id) (
          write id (owned token) (to_status OutboxStatus.cancelled (some (reason_text reason))) db),
      true,
    )
    else (db, false)

abbrev pub unattempted : ℕ → Outbox → Bool
unattempted token row = owned token row && row.attempts == 0

abbrev pub to_recipient : String → Outbox → Outbox
to_recipient new r = record r { recipient = new }

abbrev pub counted : Outbox → Outbox
counted r = record r { attempts = suc r.attempts }

abbrev pub readdress : Option ℕ → String → Table EmailMessage → Table EmailMessage
readdress none new messages = messages
readdress (some k) new messages =
    update_many k (λ _. true) (λ m. record m { to_addresses = new ∷ [] }) messages

-- `rebindRecipientAndMessage`; `false` is `'conflict'`.
unfoldable pub rebind_recipient_and_message : ℕ → Outbox → String → ℕ → Db → Db × Bool
rebind_recipient_and_message id row new token db =
    if matches id (unattempted token) db.outbox
    then (
      log (event "mail.recipient.rebound" "CommunicationOutbox" id)
          (record (write id (unattempted token) (to_recipient new) db) {
            messages = readdress row.email_message_id new db.messages;
          }),
      true,
    )
    else (db, false)

unfoldable pub mark_attempt : ℕ → ℕ → Db → Db × Bool
mark_attempt id token db = (write id (owned token) counted db, matches id (owned token) db.outbox)
