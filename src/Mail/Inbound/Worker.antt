-- ===== src/Mail/Inbound/Worker.antt =====
-- The steps of `syncOneConfig`, and `syncAll`, of mail-inbound-ingest.service.ts.
use crm_nusrv.Base.{
  ℕ, suc, ◌-◌, Bool, true, false, not, Option, none, some, String, Text, codes, List, [], ◌∷◌, ◌++◌,
  find, length, take, leb, ltb, decimal, if◌then◌else◌,
}
use crm_nusrv.Store.{Db}
use crm_nusrv.Store.Enums.{HealthStatus}
use crm_nusrv.Store.Rows.{MailConfiguration}
use crm_nusrv.Mail.ImapIdentity.{canonicalize_imap_folder}
use crm_nusrv.Mail.Inbound.{
  FetchedMailboxMessage, Source, Draw, Ingested, inserted, failed, ingest_one_message,
}
use crm_nusrv.Mail.Inbound.Sync.{
  CursorState, uninitialized, inconsistent, established, classify_cursor_state, audited, equals,
  record_imap_health, handle_inconsistent_cursor, handle_uid_validity_change, advance_cursor,
  establish_baseline,
}

pub record ImapConfigSyncResult : Type 0 where
  pub messages_ingested : ℕ
  pub duplicates_skipped : ℕ
  pub human_review_count : ℕ

abbrev pub no_result : ImapConfigSyncResult
no_result = record { messages_ingested = 0; duplicates_skipped = 0; human_review_count = 0 }

-- `FetchSinceResult`, or the reader throws.
pub data FetchSinceResult : Type 0 where
  fetched : List FetchedMailboxMessage → FetchSinceResult
  uidvalidity_changed : (current : ℕ) → FetchSinceResult
  reader_throws : FetchSinceResult

-- What a worker meets: the clock, the answers of the mailbox's reader, what storing a message meets,
-- and the text of an error.
pub record Input : Type 0 where
  pub clock : ℕ
  pub mailbox_state : Option (ℕ × ℕ)  -- the UID validity, and the next UID
  pub fetch : FetchSinceResult
  pub draw : Draw
  pub error_text : Text

-- The local variables of a run in an established mailbox.
pub record Run : Type 0 where
  pub source : Source
  pub expected_cursor : ℕ
  pub result : ImapConfigSyncResult

-- Where a worker stands: before the access that the name tells.
pub data Pc : Type 0 where
  start failing_closed : Pc
  bootstrapping : (folder : String) → Pc
  establishing : (uid_validity baseline_uid : ℕ) → Pc
  lost_bootstrap : Pc
  fetching : Run → Pc
  resetting : ImapConfigSyncResult → Pc
  storing : Run → List FetchedMailboxMessage → (count : ℕ) → Pc
  advancing : Run → FetchedMailboxMessage → List FetchedMailboxMessage → (count : ℕ) → Ingested → Pc
  reporting_failure : Run → FetchedMailboxMessage → Pc
  lost_cursor : Run → (uid : ℕ) → Pc
  done : ImapConfigSyncResult → Pc
  thrown : Pc

abbrev pub source_of : ℕ → ℕ → MailConfiguration → Source
source_of box_id uid_validity c = record {
  box_id = box_id;
  folder = canonicalize_imap_folder c.imap_folder;
  uid_validity = uid_validity;
}

abbrev pub begin : ℕ → MailConfiguration → CursorState → Pc
begin box_id c inconsistent = failing_closed
begin box_id c uninitialized = bootstrapping (canonicalize_imap_folder c.imap_folder)
begin box_id c (established uid_validity uid) =
    fetching (record {
      source = source_of box_id uid_validity c;
      expected_cursor = uid;
      result = no_result;
    })

abbrev pub begin_at : ℕ → Option MailConfiguration → Pc
begin_at box_id none = thrown
begin_at box_id (some c) = begin box_id c (classify_cursor_state c)

abbrev pub after_state : Option (ℕ × ℕ) → Pc
after_state none = thrown
after_state (some (uid_validity, uid_next)) = establishing uid_validity (uid_next - 1)

abbrev pub after_fetch : Run → FetchSinceResult → Pc
after_fetch r (fetched messages) = storing r messages (length messages)
after_fetch r (uidvalidity_changed current) = resetting r.result
after_fetch r reader_throws = thrown

abbrev pub after_ingest :
    Run → FetchedMailboxMessage → List FetchedMailboxMessage → ℕ → Ingested → Pc
after_ingest r m rest count failed = reporting_failure r m
after_ingest r m rest count outcome = advancing r m rest count outcome

abbrev pub counted : Ingested → ImapConfigSyncResult → ImapConfigSyncResult
counted (inserted review) result = record result {
  messages_ingested = suc result.messages_ingested;
  human_review_count = if review then suc result.human_review_count else result.human_review_count;
}
counted _ result = record result { duplicates_skipped = suc result.duplicates_skipped }

abbrev pub after_advance :
    Run → FetchedMailboxMessage → List FetchedMailboxMessage → ℕ → Ingested → Bool → Pc
after_advance r m rest count outcome true =
    storing (record r { expected_cursor = m.uid; result = counted outcome r.result }) rest count
after_advance r m rest count outcome false = lost_cursor r m.uid

abbrev pub sync_text : ℕ → Text
sync_text count =
    if ltb 0 count
    then codes "IMAP sync ingested " ++ (codes (decimal count) ++ codes " message(s).")
    else codes "IMAP sync completed with no new messages."

-- `error.message.slice(0, 1000)`
abbrev pub sanitize_error : Text → Text
sanitize_error message = take 1000 message

-- After a lost bootstrap.
abbrev pub settle_bootstrap : ℕ → CursorState → Db → Db
settle_bootstrap box_id (established _ _) db = audited "mail.imap.cursor_conflict" box_id db
settle_bootstrap box_id inconsistent db = handle_inconsistent_cursor box_id db
settle_bootstrap box_id uninitialized db = db

abbrev pub reached : Option ℕ → ℕ → Bool
reached none uid = false
reached (some k) uid = leb uid k

-- After a lost swap of the cursor.
abbrev pub settle_cursor : Run → ℕ → MailConfiguration → Db → Db
settle_cursor r uid c db =
    if not (equals c.last_sync_uid_validity r.source.uid_validity)
    then handle_uid_validity_change r.source.box_id db
    else if reached c.last_sync_uid uid
    then audited "mail.imap.cursor_conflict" r.source.box_id db
    else record_imap_health r.source.box_id HealthStatus.degraded
        (codes "IMAP cursor conflict detected; sync stopped for this run.")
        (audited "mail.imap.cursor_conflict" r.source.box_id db)

abbrev pub reread_bootstrap : ℕ → Option MailConfiguration → Db → Db × Pc
reread_bootstrap box_id none db = (db, thrown)
reread_bootstrap box_id (some c) db =
    (settle_bootstrap box_id (classify_cursor_state c) db, done no_result)

abbrev pub reread_cursor : Run → ℕ → Option MailConfiguration → Db → Db × Pc
reread_cursor r uid none db = (db, thrown)
reread_cursor r uid (some c) db = (settle_cursor r uid c db, done r.result)

abbrev pub report_baseline : ℕ → Bool → Db → Db
report_baseline box_id true db =
    record_imap_health box_id HealthStatus.healthy (codes "IMAP sync baseline established.")
      (audited "mail.imap.sync_baseline_established" box_id db)
report_baseline box_id false db = db

abbrev pub or_lost : Bool → Pc
or_lost true = done no_result
or_lost false = lost_bootstrap

abbrev pub report_failure : Run → Text → Db → Db
report_failure r error_text db =
    record_imap_health r.source.box_id HealthStatus.degraded (sanitize_error error_text)
      (audited "mail.imap.message_ingest_failed" r.source.box_id db)

module _ (sha256_hex : String → String) (id_text : ℕ → String) (box_id : ℕ) where
  -- One access of the worker, and where it stands then.
  unfoldable pub step : Input → Pc → Db → Db × Pc
  step i start db = (db, begin_at box_id (find box_id db.mail_configurations))
  step i failing_closed db = (handle_inconsistent_cursor box_id db, done no_result)
  step i (bootstrapping folder) db = (db, after_state i.mailbox_state)
  step i (establishing uid_validity baseline_uid) db =
      let (db', won) = establish_baseline box_id uid_validity baseline_uid i.clock db in
      (report_baseline box_id won db', or_lost won)
  step i lost_bootstrap db = reread_bootstrap box_id (find box_id db.mail_configurations) db
  step i (fetching r) db = (db, after_fetch r i.fetch)
  step i (resetting result) db = (handle_uid_validity_change box_id db, done result)
  step i (storing r [] count) db =
      (record_imap_health box_id HealthStatus.healthy (sync_text count) db, done r.result)
  step i (storing r (m ∷ rest) count) db =
      let (db', outcome) = ingest_one_message sha256_hex id_text r.source m i.draw db in
      (db', after_ingest r m rest count outcome)
  step i (advancing r m rest count outcome) db =
      let (db', advanced) =
        advance_cursor box_id r.source.uid_validity r.expected_cursor m.uid i.clock db in
      (db', after_advance r m rest count outcome advanced)
  step i (reporting_failure r m) db = (report_failure r i.error_text db, done r.result)
  step i (lost_cursor r uid) db = reread_cursor r uid (find box_id db.mail_configurations) db
  step i (done result) db = (db, done result)
  step i thrown db = (db, thrown)
