-- ===== src/Mail/Outbound/Recording.antt =====
-- `recordSuccess` and `recordFailure` of mail-outbound.service.ts, and mail-health.service.ts: what is
-- kept of the result of a send.
use crm_nusrv.Base.{
  ℕ, Bool, true, false, ◌||◌, Option, none, some, Text, codes, List, [], ◌∷◌, ◌++◌, find, matches,
  update_many, leb, if◌then◌else◌,
}
use crm_nusrv.Store.{Db}
use crm_nusrv.Store.Enums.{OutboxStatus, HealthStatus, IntegrationKind}
use crm_nusrv.Store.Rows.{MailConfiguration, AuditEvent, HealthEvent}
use crm_nusrv.Mail.SmtpErrors.{
  SmtpError, HealthImpact, infrastructure, message, no_impact, classify_smtp_error,
}
use crm_nusrv.Mail.Sanitize.{sanitize_error}
use crm_nusrv.Mail.Outbound.Writes.{owned, event, log, write, to_status}

-- `MAX_SEND_ATTEMPTS`
abbrev pub max_send_attempts : ℕ
max_send_attempts = 5

-- How a result was recorded; `threw` is an exception that leaves `processOne`.
pub data Recorded : Type 0 where
  recorded lost threw : Recorded

abbrev pub same_health : HealthStatus → HealthStatus → Bool
same_health HealthStatus.unknown HealthStatus.unknown = true
same_health HealthStatus.healthy HealthStatus.healthy = true
same_health HealthStatus.degraded HealthStatus.degraded = true
same_health HealthStatus.unavailable HealthStatus.unavailable = true
same_health _ _ = false

abbrev pub health_event : ℕ → HealthStatus → Text → HealthEvent
health_event box_id status text = record {
  integration = IntegrationKind.smtp;
  mail_configuration_id = box_id;
  status = status;
  message = text;
}

abbrev with_health : HealthStatus → MailConfiguration → MailConfiguration
with_health status c = record c { last_health_status = status }

abbrev appended : Bool → HealthEvent → List HealthEvent → List HealthEvent
appended true e l = l
appended false e l = l ++ e ∷ []

-- `MailHealthService.record`: an event is kept only when the status changes.
unfoldable pub record_health : ℕ → HealthStatus → Text → Db → Db × Recorded
record_health box_id status text db = elim (find box_id db.mail_configurations) [
  | none ↦ (db, threw)
  | some c ↦ (
    record db {
      health_events =
          appended (same_health c.last_health_status status) (health_event box_id status text)
            db.health_events;
      mail_configurations =
          update_many box_id (λ _. true) (with_health status) db.mail_configurations;
    },
    recorded,
  )
]

abbrev report_lost : ℕ → Db → Db × Recorded
report_lost id db =
    (log (event "mail.send.ownership_lost_after_transmission" "CommunicationOutbox" id) db, lost)

-- The transaction of `recordSuccess`, where the guard matches
abbrev pub committed : ℕ → ℕ → Db → Db
committed id token db =
    log (event "mail.send.succeeded" "CommunicationOutbox" id)
      (write id (owned token) (to_status OutboxStatus.delivered none) db)

unfoldable pub record_success : ℕ → ℕ → ℕ → Db → Db × Recorded
record_success id box_id token db =
    if matches id (owned token) db.outbox
    then record_health box_id HealthStatus.healthy (codes "SMTP send succeeded.")
        (committed id token db)
    else report_lost id db

-- The health that a failed send reports, if any.
abbrev pub failure_health : HealthImpact → Bool → Option HealthStatus
failure_health infrastructure terminal =
    some (if terminal then HealthStatus.unavailable else HealthStatus.degraded)
failure_health message terminal = none
failure_health no_impact terminal = none

unfoldable pub report_failure : Option HealthStatus → ℕ → Text → Db → Db × Recorded
report_failure none box_id text db = (db, recorded)
report_failure (some status) box_id text db = record_health box_id status text db

abbrev pub log_if : Bool → AuditEvent → Db → Db
log_if true e db = log e db
log_if false e db = db

-- Whether a failure is the last, by its kind and by the attempts made.
unfoldable pub is_terminal : SmtpError → ℕ → Bool
is_terminal error attempts = (classify_smtp_error error).terminal || leb max_send_attempts attempts

abbrev pub next_status : Bool → OutboxStatus
next_status terminal = if terminal then OutboxStatus.failed else OutboxStatus.queued

-- The transaction of `recordFailure`, where the guard matches
abbrev pub committed_failure : ℕ → Bool → Text → ℕ → Db → Db
committed_failure id terminal text token db =
    log_if terminal (event "mail.send.failed" "CommunicationOutbox" id)
      (write id (owned token) (to_status (next_status terminal) (some text)) db)

-- `recordFailure`, by the attempts that its own read finds
unfoldable pub record_failure_at : ℕ → ℕ → ℕ → SmtpError → ℕ → Db → Db × Recorded
record_failure_at attempts id box_id error token db =
    let text = sanitize_error error.message in
    let terminal = is_terminal error attempts in
    if matches id (owned token) db.outbox
    then report_failure (failure_health (classify_smtp_error error).health_impact terminal) box_id
        text (committed_failure id terminal text token db)
    else report_lost id db

unfoldable pub record_failure : ℕ → ℕ → SmtpError → ℕ → Db → Db × Recorded
record_failure id box_id error token db = elim (find id db.outbox) [
  | none ↦ (db, threw)
  | some current ↦ record_failure_at current.attempts id box_id error token db
]
