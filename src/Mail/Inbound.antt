-- ===== src/Mail/Inbound.antt =====
-- apps/api/src/modules/mail/mail-inbound-ingest.service.ts: the messages of a mailbox, stored once each.
-- This file has the storing of one message (`ingestOneMessage`); `Sync` has a worker's steps.
pub mod Sync
pub mod Worker
pub mod System
pub mod Safety
pub mod Batch
use crm_nusrv.Base.{
  ℕ, Bool, true, false, Option, none, some, String, List, [], ◌∷◌, ◌++◌, Table, find_first, create,
  leb, ◌==◌, str_eq, units, take_chars, trimmed, is_empty, is_some, if◌then◌else◌,
}
use crm_nusrv.Base.Results.{Result, ok, throw}
use Prim.Native.String
use crm_nusrv.Store.{Db}
use crm_nusrv.Store.Enums.{ActorType, ClassificationStatus, MessageDirection}
use crm_nusrv.Store.Rows.{EmailMessage, AuditEvent}
use crm_nusrv.Mail.MessageIds.{
  parse_message_id_tokens, parse_primary_message_id, build_references_storage_value,
}
use crm_nusrv.Mail.ImapIdentity.{ImapIdentityTuple, compute_imap_identity_key}
use crm_nusrv.Mail.InboundBody.{
  safe_text_byte_limit, derive_inbound_body_text, derive_inbound_body_html,
}
use crm_nusrv.Mail.ThreadUse.{CorrelationParams, CorrelationOutcome}
use crm_nusrv.Mail.Correlation.{correlate}

-- What the reader gives of a message.
pub record FetchedMailboxMessage : Type 0 where
  pub uid : ℕ
  pub internal_date : Option ℕ
  pub subject : Option String
  pub from_address : Option String
  pub to_addresses : List String
  pub message_id_header : Option String
  pub in_reply_to_header : Option String
  pub references_header : Option String
  pub renewal_case_id_header : Option String
  pub text : Option String
  pub html : Option String
  pub parse_failed : Bool

-- `boundedCharacters`
unfoldable pub bounded_characters : String → ℕ → String
bounded_characters value max_length =
    if leb (units value) max_length
    then value
    else if leb (String.count value) max_length
    then value
    else take_chars max_length value

abbrev given {ℓ} : {A : Type ℓ} → A → Option A → A
given a none = a
given a (some b) = b

-- `message.subject?.trim() || '(no subject)'`
abbrev pub subject_of : Option String → String
subject_of none = "(no subject)"
subject_of (some s) =
    let subject = trimmed s in if is_empty subject then "(no subject)" else subject

-- What the system meets while it stores a message: the clock, the ids that it draws, and whether the
-- queue of the classifier fails once the message is stored.
pub record Draw : Type 0 where
  pub clock : ℕ
  pub thread_id : ℕ
  pub message_id : ℕ
  pub enqueue_fails : Bool

-- The mailbox: its id, its folder under the canonical name, and the UID validity.
pub record Source : Type 0 where
  pub box_id : ℕ
  pub folder : String
  pub uid_validity : ℕ

pub data Ingested : Type 0 where
  inserted : (human_review : Bool) → Ingested
  duplicate failed : Ingested

abbrev pub identity_of : (ℕ → String) → Source → ℕ → ImapIdentityTuple
identity_of id_text source uid = record {
  mail_configuration_id = id_text source.box_id;
  canonical_folder = source.folder;
  uid_validity = source.uid_validity;
  uid = uid;
}

abbrev pub params_of : Source → FetchedMailboxMessage → ℕ → CorrelationParams
params_of source message occurred_at = record {
  mail_configuration_id = source.box_id;
  from_address = message.from_address;
  subject = bounded_characters (subject_of message.subject) 500;
  occurred_at = occurred_at;
  in_reply_to_header = message.in_reply_to_header;
  references_header = message.references_header;
  renewal_case_id_header = message.renewal_case_id_header;
}

-- A message that could not be parsed goes to the staff.
abbrev pub status_of : Bool → CorrelationOutcome → ClassificationStatus
status_of true outcome = ClassificationStatus.human_review
status_of false outcome = outcome.classification_status

abbrev pub new_message :
    String → Source → FetchedMailboxMessage → ℕ → CorrelationOutcome → EmailMessage
new_message key source message occurred_at outcome = record {
  thread_id = outcome.thread_id;
  customer_id = outcome.customer_id;
  renewal_case_id = outcome.renewal_case_id;
  direction = MessageDirection.inbound;
  subject = bounded_characters (subject_of message.subject) 500;
  from_address = bounded_characters (given "unknown-sender" message.from_address) 320;
  to_addresses = message.to_addresses;
  body_text = derive_inbound_body_text message.text message.html;
  occurred_at = occurred_at;
  mail_configuration_id = some source.box_id;
  external_message_id = parse_primary_message_id message.message_id_header;
  in_reply_to = parse_primary_message_id message.in_reply_to_header;
  references =
      build_references_storage_value (parse_message_id_tokens message.references_header)
        safe_text_byte_limit;
  body_html = derive_inbound_body_html message.html;
  imap_folder = some source.folder;
  imap_uid = some message.uid;
  imap_uid_validity = some source.uid_validity;
  imap_identity_key = some key;
  classification_status = status_of message.parse_failed outcome;
}

abbrev pub is_review : ClassificationStatus → Bool
is_review ClassificationStatus.human_review = true
is_review _ = false

abbrev is_pending : ClassificationStatus → Bool
is_pending ClassificationStatus.pending = true
is_pending _ = false

abbrev ingest_event : ClassificationStatus → ℕ → AuditEvent
ingest_event status message_id = record {
  actor_type = ActorType.system;
  actor_id = none;
  event_key =
      if is_review status then "mail.inbound.correlation_ambiguous" else "mail.inbound.ingested";
  subject_type = "EmailMessage";
  subject_id = message_id;
}

-- The unique key `imapIdentityKey`
abbrev pub has_identity : String → EmailMessage → Bool
has_identity key m = elim m.imap_identity_key [ none ↦ false | some k ↦ str_eq k key ]

-- After the transaction: a message that waits for the classifier is put into its queue.
abbrev pub after_commit : ClassificationStatus → Bool → Ingested
after_commit status enqueue_fails =
    if is_pending status
    then (if enqueue_fails then failed else inserted false)
    else inserted (is_review status)

abbrev pub stored : Draw → EmailMessage → Db → Db
stored draw m db = record db {
  messages = create draw.message_id m db.messages;
  audit = db.audit ++ ingest_event m.classification_status draw.message_id ∷ [];
}

-- The transaction, after `correlate`. When the key is taken, it is rolled back.
abbrev pub commit :
    String
    → Source
    → FetchedMailboxMessage
    → ℕ
    → Draw
    → Db
    → Result (Db × CorrelationOutcome)
    → Db × Ingested
commit key source message occurred_at draw db (throw e) = (db, failed)
commit key source message occurred_at draw db (ok (correlated, outcome)) =
    let m = new_message key source message occurred_at outcome in
    if is_some (find_first (has_identity key) db.messages)
    then (db, duplicate)
    else (stored draw m correlated, after_commit m.classification_status draw.enqueue_fails)

module _ (sha256_hex : String → String) (id_text : ℕ → String) where
  -- `ingestOneMessage`
  unfoldable pub ingest_one_message : Source → FetchedMailboxMessage → Draw → Db → Db × Ingested
  ingest_one_message source message draw db =
      let occurred_at = given draw.clock message.internal_date in
      commit (compute_imap_identity_key sha256_hex (identity_of id_text source message.uid)) source
        message occurred_at draw db
        (correlate id_text (params_of source message occurred_at) draw.thread_id db)
