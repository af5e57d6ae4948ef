-- ===== src/Mail/Outbound/Materialize.antt =====
-- `materialize` of mail-outbound.service.ts, with the thread and the Message-ID: the outbound message of
-- a row is made once, and reused by every retry.
use crm_nusrv.Base.{
  ℕ, Bool, false, not, Option, none, some, String, [], ◌∷◌, find, matches, create, ◌==◌, str_eq,
  if◌then◌else◌,
}
use Prim.Native.Char.{code}
use Prim.Native.String
use crm_nusrv.Store.{Db}
use crm_nusrv.Store.Enums.{MessageDirection, ClassificationStatus}
use crm_nusrv.Store.Rows.{Outbox, EmailMessage}
use crm_nusrv.Mail.Configuration.{Mailbox}
use crm_nusrv.Mail.Threads.{ThreadParams, resolve_or_create}
use crm_nusrv.Mail.Outbound.Writes.{owned, event, log, write}

-- What is handed to the transport besides the row's text.
pub record Materialized : Type 0 where
  pub mailbox : Mailbox
  pub message_id_header : String

pub data MaterializeResult : Type 0 where
  materialized : Materialized → MaterializeResult
  ownership_lost thrown : MaterializeResult

abbrev pub after_at : String → Option String
after_at String.[] = none
after_at (String.◌∷◌ c s) = if code c == b'@' then some s else after_at s

abbrev pub domain_of : Option String → String
domain_of none = "localhost"
domain_of (some d) = d

-- `generateStableMessageId`, of the random UUID and the sender's address
unfoldable pub generate_stable_message_id : String → String → String
generate_stable_message_id uuid from_address =
    String.◌++◌ "<"
      (String.◌++◌ uuid (String.◌++◌ "@" (String.◌++◌ (domain_of (after_at from_address)) ">")))

abbrev disagree : Option String → Option String → Bool
disagree (some a) (some b) = not (str_eq a b)
disagree _ _ = false

abbrev first_of_two : Option String → Option String → String → String
first_of_two (some a) _ c = a
first_of_two none (some b) c = b
first_of_two none none c = c

-- `materialize`, when the row has its message already
unfoldable pub reuse : Outbox → Mailbox → String → EmailMessage → MaterializeResult
reuse row box uuid existing =
    if disagree row.message_id_header existing.external_message_id
    then thrown
    else materialized (record {
      mailbox = box;
      message_id_header =
          first_of_two row.message_id_header existing.external_message_id
            (generate_stable_message_id uuid box.1.from_address);
    })

abbrev pub thread_params : Outbox → ℕ → ℕ → ThreadParams
thread_params row box_id now = record {
  renewal_case_id = row.renewal_case_id;
  customer_id = some row.customer_id;
  mail_configuration_id = box_id;
  subject = row.subject;
  occurred_at = now;
}

abbrev new_message : Outbox → Mailbox → String → ℕ → ℕ → String → EmailMessage
new_message row box recipient now thread_id header = record {
  thread_id = thread_id;
  customer_id = some row.customer_id;
  renewal_case_id = some row.renewal_case_id;
  direction = MessageDirection.outbound;
  subject = row.subject;
  from_address = box.1.from_address;
  to_addresses = recipient ∷ [];
  body_text = row.body;
  occurred_at = now;
  mail_configuration_id = some box.0;
  external_message_id = some header;
  in_reply_to = none;
  references = none;
  body_html = none;
  imap_folder = none;
  imap_uid = none;
  imap_uid_validity = none;
  imap_identity_key = none;
  classification_status = ClassificationStatus.pending;
}

-- The ids and the UUID that a worker draws.
pub record Fresh : Type 0 where
  pub thread_id : ℕ
  pub message_id : ℕ
  pub uuid : String

abbrev pub linked : ℕ → String → Outbox → Outbox
linked message_id header row = record row {
  email_message_id = some message_id;
  message_id_header = some header;
}

-- `materialize`, for a row without a message; the transaction rolls back if the lease is lost.
unfoldable pub materialize_new :
    ℕ → Outbox → Mailbox → String → ℕ → ℕ → Fresh → Db → Db × MaterializeResult
materialize_new id row box recipient now token fresh db =
    let header = generate_stable_message_id fresh.uuid box.1.from_address in
    let (threaded, (thread_id, _)) =
      resolve_or_create (thread_params row box.0 now) fresh.thread_id db in
    let posted = record threaded {
      messages =
          create fresh.message_id (new_message row box recipient now thread_id header)
            threaded.messages;
    } in
    if matches id (owned token) db.outbox
    then (
      log (event "mail.message.materialized" "EmailMessage" fresh.message_id)
          (write id (owned token) (linked fresh.message_id header) posted),
      materialized (record { mailbox = box; message_id_header = header }),
    )
    else (db, ownership_lost)

unfoldable pub materialize :
    ℕ → Outbox → Mailbox → String → ℕ → ℕ → Fresh → Db → Db × MaterializeResult
unfolding materialize_new reuse
materialize id row box recipient now token fresh db = elim row.email_message_id [
  | none ↦ materialize_new id row box recipient now token fresh db
  | some k ↦ elim (find k db.messages) [
    | none ↦ (db, thrown)
    | some existing ↦ (db, reuse row box fresh.uuid existing)
  ]
]
