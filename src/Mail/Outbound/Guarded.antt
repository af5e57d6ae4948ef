-- ===== src/Mail/Outbound/Guarded.antt =====
-- What each write of the outbox worker leaves of the row it works on.
use crm_nusrv.Mail.Threads.{ThreadParams, resolve_or_create}
use crm_nusrv.Base.{
  ℕ, ◌≡◌, refl, Bool, true, false, Option, none, some, String, Text, codes, find, changed, matches,
  update_many, find-update_many, arith, if◌then◌else◌,
}
use crm_nusrv.Store.{Db}
use crm_nusrv.Store.Enums.{OutboxStatus, HealthStatus}
use crm_nusrv.Store.Rows.{Outbox, AuditEvent}
use crm_nusrv.Mail.Configuration.{Mailbox}
use crm_nusrv.Mail.SmtpErrors.{SmtpError, classify_smtp_error}
use crm_nusrv.Mail.Sanitize.{sanitize_error}
use crm_nusrv.Mail.Outbound.{Reason, claimable, claimed_by, claim, read_token}
use crm_nusrv.Mail.Outbound.Writes.{
  owned, unattempted, event, write, to_status, to_recipient, counted, reason_text, defer_to_queued,
  cancel_row, rebind_recipient_and_message, mark_attempt,
}
use crm_nusrv.Mail.Outbound.Materialize.{
  Fresh, Materialized, MaterializeResult, materialized, ownership_lost, linked,
  generate_stable_message_id, materialize_new, materialize, reuse, thread_params,
}
use crm_nusrv.Mail.Outbound.Recording.{
  record_health, record_failure_at, committed, committed_failure, failure_health, report_failure,
  log_if, record_success, record_failure, next_status, is_terminal,
}

module _ (id : ℕ) (db : Db) (r : Outbox) (stored : find id db.outbox ≡ some r) where
  find-write :
      (p : Outbox → Bool) (f : Outbox → Outbox)
      → find id (update_many id p f db.outbox) ≡ some (changed p f r)
  find-write p f = ground (arith, find-update_many id id p f db.outbox)

  pub matches-stored : (p : Outbox → Bool) → matches id p db.outbox ≡ p r
  matches-stored p = ground arith

  pub row-claim :
      (now : ℕ)
      → (find id (claim id now db).0.outbox ≡ some (changed (claimable now) (claimed_by now) r))
        × ((claim id now db).1 ≡ claimable now r)
  unfolding claim
  row-claim now = (find-write (claimable now) (claimed_by now), matches-stored (claimable now))

  pub row-read_token : read_token id db ≡ r.last_attempt_at
  unfolding read_token
  row-read_token = ground arith

  pub row-defer :
      (reason : Reason) (token : ℕ)
      → (find id (defer_to_queued id reason token db).0.outbox
          ≡ some
              (changed (owned token) (to_status OutboxStatus.queued (some (reason_text reason))) r))
        × ((defer_to_queued id reason token db).1 ≡ owned token r)
  unfolding defer_to_queued
  row-defer reason token = (
    find-write (owned token) (to_status OutboxStatus.queued (some (reason_text reason))),
    matches-stored (owned token),
  )

  pub row-cancel :
      (reason : Reason) (token : ℕ)
      → (find id (cancel_row id reason token db).0.outbox
          ≡ some (
              changed
                (owned token)
                (to_status OutboxStatus.cancelled (some (reason_text reason)))
                r))
        × ((cancel_row id reason token db).1 ≡ owned token r)
  unfolding cancel_row
  row-cancel reason token = ground (
    arith,
    find-write (owned token) (to_status OutboxStatus.cancelled (some (reason_text reason))),
    matches-stored (owned token),
  )

  pub row-rebind :
      (row : Outbox) (new : String) (token : ℕ)
      → (find id (rebind_recipient_and_message id row new token db).0.outbox
          ≡ some (changed (unattempted token) (to_recipient new) r))
        × ((rebind_recipient_and_message id row new token db).1 ≡ unattempted token r)
  unfolding rebind_recipient_and_message
  row-rebind row new token =
      ground (
        arith,
        find-write (unattempted token) (to_recipient new),
        matches-stored (unattempted token),
      )

  pub row-mark :
      (token : ℕ)
      → (find id (mark_attempt id token db).0.outbox ≡ some (changed (owned token) counted r))
        × ((mark_attempt id token db).1 ≡ owned token r)
  unfolding mark_attempt
  row-mark token = (find-write (owned token) counted, matches-stored (owned token))

  outbox-resolve_or_create :
      (params : ThreadParams) (thread_id : ℕ)
      → (resolve_or_create params thread_id db).0.outbox ≡ db.outbox
  unfolding resolve_or_create
  outbox-resolve_or_create params thread_id = ground arith

  -- The header that a new message gets.
  abbrev new_header : Mailbox → Fresh → String
  new_header box fresh = generate_stable_message_id fresh.uuid box.1.from_address

  abbrev made : Bool → Mailbox → Fresh → MaterializeResult
  made b box fresh =
      if b
      then materialized (record { mailbox = box; message_id_header = new_header box fresh })
      else ownership_lost

  pub row-materialize_new :
      (row : Outbox) (box : Mailbox) (recipient : String) (now token : ℕ) (fresh : Fresh)
      → (find id (materialize_new id row box recipient now token fresh db).0.outbox
          ≡ some (changed (owned token) (linked fresh.message_id (new_header box fresh)) r))
        × ((materialize_new id row box recipient now token fresh db).1
            ≡ made (owned token r) box fresh)
  unfolding materialize_new
  row-materialize_new row box recipient now token fresh = ground (
    arith,
    outbox-resolve_or_create (thread_params row box.0 now) fresh.thread_id,
    find-write (owned token) (linked fresh.message_id (new_header box fresh)),
    matches-stored (owned token),
  )

  -- What `materialize` leaves of the row, by whether the worker found a message there.
  abbrev pub after_materialized : Option ℕ → Mailbox → ℕ → Fresh → Outbox
  after_materialized none box token fresh =
      changed (owned token) (linked fresh.message_id (new_header box fresh)) r
  after_materialized (some _) box token fresh = r

  pub row-materialize :
      (row : Outbox) (box : Mailbox) (recipient : String) (now token : ℕ) (fresh : Fresh)
      → find id (materialize id row box recipient now token fresh db).0.outbox
        ≡ some (after_materialized row.email_message_id box token fresh)
  unfolding materialize
  row-materialize row box recipient now token fresh =
      ground (arith, row-materialize_new row box recipient now token fresh)

  pub materialize-made :
      (row : Outbox) (box : Mailbox) (recipient : String) (now token : ℕ) (fresh : Fresh)
      → row.email_message_id ≡ none
      → (materialize id row box recipient now token fresh db).1 ≡ made (owned token r) box fresh
  unfolding materialize
  materialize-made row box recipient now token fresh e =
      ground (arith, row-materialize_new row box recipient now token fresh)

  pub materialize_reused :
      (row : Outbox) (box : Mailbox) (recipient : String) (now token : ℕ) (fresh : Fresh) (k : ℕ)
      (h : String) {m : Materialized}
      → row.email_message_id ≡ some k
      → row.message_id_header ≡ some h
      → (materialize id row box recipient now token fresh db).1 ≡ materialized m
      → m.message_id_header ≡ h
  unfolding materialize reuse
  materialize_reused row box recipient now token fresh k h e f g = ground arith

module _ (box_id : ℕ) (status : HealthStatus) (text : Text) (db : Db) where
  pub outbox-record_health : (record_health box_id status text db).0.outbox ≡ db.outbox
  unfolding record_health
  outbox-record_health = ground arith

outbox-report_failure :
    (health : Option HealthStatus) (box_id : ℕ) (text : Text) (db : Db)
    → (report_failure health box_id text db).0.outbox ≡ db.outbox
unfolding report_failure
outbox-report_failure none box_id text db = refl
outbox-report_failure (some status) box_id text db = outbox-record_health box_id status text db

outbox-log_if : (b : Bool) (e : AuditEvent) (db : Db) → (log_if b e db).outbox ≡ db.outbox
outbox-log_if true e db = refl
outbox-log_if false e db = refl

module _ (id : ℕ) (db : Db) (r : Outbox) (stored : find id db.outbox ≡ some r)
    (box_id token : ℕ) where
  pub row-record_success :
      find id (record_success id box_id token db).0.outbox
      ≡ some (changed (owned token) (to_status OutboxStatus.delivered none) r)
  unfolding record_success
  row-record_success = ground (
    arith,
    outbox-record_health box_id HealthStatus.healthy (codes "SMTP send succeeded.")
        (committed id token db),
    find-write id db r stored (owned token) (to_status OutboxStatus.delivered none),
    matches-stored id db r stored (owned token),
  )

  row-record_failure_at :
      (attempts : ℕ) (error : SmtpError)
      → find id (record_failure_at attempts id box_id error token db).0.outbox
        ≡ some (
            changed
              (owned token)
              (to_status
                (next_status (is_terminal error attempts))
                (some (sanitize_error error.message)))
              r)
  unfolding record_failure_at
  row-record_failure_at attempts error =
      let terminal = is_terminal error attempts in
      let text = sanitize_error error.message in
      let done = to_status (next_status terminal) (some text) in
      ground (
        arith,
        outbox-report_failure (failure_health (classify_smtp_error error).health_impact terminal)
            box_id text (committed_failure id terminal text token db),
        outbox-log_if terminal (event "mail.send.failed" "CommunicationOutbox" id)
            (write id (owned token) done db),
        find-write id db r stored (owned token) done,
        matches-stored id db r stored (owned token),
      )

  pub row-record_failure :
      (error : SmtpError)
      → find id (record_failure id box_id error token db).0.outbox
        ≡ some (
            changed
              (owned token)
              (to_status
                (next_status (is_terminal error r.attempts))
                (some (sanitize_error error.message)))
              r)
  unfolding record_failure
  row-record_failure error = rw (stored, record_failure) (row-record_failure_at r.attempts error)
