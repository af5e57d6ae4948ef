-- ===== src/Mail/Inbound/Sync.antt =====
-- `syncOneConfig` of mail-inbound-ingest.service.ts and mail-imap-health.service.ts, a database access at
-- a time, so that other workers and the rest of the application may act between any two of them. A
-- write is taken together with the audit and health events that follow it.
use crm_nusrv.Base.{
  ℕ, Bool, true, false, ◌&&◌, Option, none, some, String, Text, codes, List, [], ◌∷◌, ◌++◌, matches,
  update_many, ◌==◌, if◌then◌else◌,
}
use crm_nusrv.Store.{Db}
use crm_nusrv.Store.Enums.{ActorType, HealthStatus, IntegrationKind}
use crm_nusrv.Store.Rows.{MailConfiguration, AuditEvent, HealthEvent}
use crm_nusrv.Mail.Outbound.Recording.{same_health}

pub data CursorState : Type 0 where
  uninitialized inconsistent : CursorState
  established : (uid_validity uid : ℕ) → CursorState

-- `classifyCursorState`
abbrev pub cursor_of : Option ℕ → Option ℕ → CursorState
cursor_of none none = uninitialized
cursor_of (some uid_validity) (some uid) = established uid_validity uid
cursor_of _ _ = inconsistent

unfoldable pub classify_cursor_state : MailConfiguration → CursorState
classify_cursor_state c = cursor_of c.last_sync_uid_validity c.last_sync_uid

abbrev imap_event : String → ℕ → AuditEvent
imap_event key box_id = record {
  actor_type = ActorType.system;
  actor_id = none;
  event_key = key;
  subject_type = "MailConfiguration";
  subject_id = box_id;
}

abbrev pub audited : String → ℕ → Db → Db
audited key box_id db = record db { audit = db.audit ++ imap_event key box_id ∷ [] }

abbrev is_imap_of : ℕ → HealthEvent → Bool
is_imap_of box_id e = elim e.integration [
  | IntegrationKind.imap ↦ e.mail_configuration_id == box_id
  | _ ↦ false
]

-- The status of the last event of the mailbox; the events stand in the order of their creation.
abbrev last_status : ℕ → Option HealthStatus → List HealthEvent → Option HealthStatus
last_status box_id last [] = last
last_status box_id last (e ∷ l) =
    last_status box_id (if is_imap_of box_id e then some e.status else last) l

abbrev is_status : Option HealthStatus → HealthStatus → Bool
is_status none status = false
is_status (some last) status = same_health last status

-- `MailImapHealthService.record`
unfoldable pub record_imap_health : ℕ → HealthStatus → Text → Db → Db
record_imap_health box_id status message db =
    if is_status (last_status box_id none db.health_events) status then db else record db {
      health_events =
          db.health_events
          ++ record {
            integration = IntegrationKind.imap;
            mail_configuration_id = box_id;
            status = status;
            message = message;
          }
            ∷ [];
    }

-- `handleInconsistentCursor`
abbrev pub handle_inconsistent_cursor : ℕ → Db → Db
handle_inconsistent_cursor box_id db =
    record_imap_health box_id HealthStatus.unavailable
      (codes
        "IMAP_CURSOR_INCONSISTENT_REQUIRES_REVIEW: exactly one of lastSyncUidValidity/lastSyncUid is NULL; automatic sync stopped pending manual review.")
      (audited "mail.imap.cursor_inconsistent" box_id db)

-- `handleUidValidityChange`
abbrev pub handle_uid_validity_change : ℕ → Db → Db
handle_uid_validity_change box_id db =
    record_imap_health box_id HealthStatus.unavailable
      (codes
        "UIDVALIDITY_CHANGED_REQUIRES_CURSOR_RESET: automatic sync stopped for this mailbox pending manual cursor reset.")
      (audited "mail.imap.uidvalidity_changed" box_id db)

abbrev pub equals : Option ℕ → ℕ → Bool
equals none k = false
equals (some j) k = j == k

abbrev pub has_cursor : ℕ → ℕ → MailConfiguration → Bool
has_cursor uid_validity uid c =
    equals c.last_sync_uid_validity uid_validity && equals c.last_sync_uid uid

abbrev is_null : Option ℕ → Bool
is_null none = true
is_null (some _) = false

abbrev pub is_unset : MailConfiguration → Bool
is_unset c = is_null c.last_sync_uid_validity && is_null c.last_sync_uid

abbrev pub at_uid : ℕ → ℕ → MailConfiguration → MailConfiguration
at_uid uid now c = record c { last_sync_uid = some uid; last_synced_at = some now }

abbrev pub at_baseline : ℕ → ℕ → ℕ → MailConfiguration → MailConfiguration
at_baseline uid_validity uid now c = record c {
  last_sync_uid_validity = some uid_validity;
  last_sync_uid = some uid;
  last_synced_at = some now;
}

-- The compare-and-swap that moves the cursor.
unfoldable pub advance_cursor : ℕ → ℕ → ℕ → ℕ → ℕ → Db → Db × Bool
advance_cursor box_id uid_validity expected uid now db = (
  record db {
    mail_configurations =
        update_many box_id (has_cursor uid_validity expected) (at_uid uid now)
          db.mail_configurations;
  },
  matches box_id (has_cursor uid_validity expected) db.mail_configurations,
)

-- The compare-and-swap of `establishBootstrapBaselineCas`.
unfoldable pub establish_baseline : ℕ → ℕ → ℕ → ℕ → Db → Db × Bool
establish_baseline box_id uid_validity uid now db = (
  record db {
    mail_configurations =
        update_many box_id is_unset (at_baseline uid_validity uid now) db.mail_configurations;
  },
  matches box_id is_unset db.mail_configurations,
)
