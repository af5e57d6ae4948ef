-- ===== src/Mail/Inbound/Batch.antt =====
-- `syncAll` of mail-inbound-ingest.service.ts: the enabled mailboxes, one after another.
pub mod Ends
pub mod Alone
pub mod Caught
use crm_nusrv.Base.{
  ℕ, suc, ◌+◌, Bool, true, false, ◌&&◌, Option, none, some, List, [], ◌∷◌, Table, filter, String,
  Text,
}
use crm_nusrv.Store.{Db}
use crm_nusrv.Store.Enums.{HealthStatus}
use crm_nusrv.Store.Rows.{MailConfiguration}
use crm_nusrv.Mail.Configuration.{is_environment_allowed, env_of}
use crm_nusrv.Mail.Inbound.Sync.{record_imap_health, classify_cursor_state}
use crm_nusrv.Mail.Inbound.Worker.{
  ImapConfigSyncResult, Input, Pc, begin, done, thrown, step, sanitize_error,
}

pub record ImapSyncSummary : Type 0 where
  pub configs_processed : ℕ
  pub configs_skipped : ℕ
  pub messages_ingested : ℕ
  pub duplicates_skipped : ℕ
  pub human_review_count : ℕ

abbrev pub no_summary : ImapSyncSummary
no_summary = record {
  configs_processed = 0;
  configs_skipped = 0;
  messages_ingested = 0;
  duplicates_skipped = 0;
  human_review_count = 0;
}

abbrev pub is_enabled : Option String → ℕ × MailConfiguration → Bool
is_enabled node_env (_, c) =
    c.enabled && c.inbound_sync_enabled && is_environment_allowed c.environment (env_of node_env)

-- `configs`, as they are when the loop begins
unfoldable pub sync_configs : Option String → Db → Table MailConfiguration
sync_configs node_env db = filter (is_enabled node_env) db.mail_configurations

abbrev pub settled : Pc → Option ImapConfigSyncResult
settled (done result) = some result
settled _ = none

abbrev pub processed : ImapConfigSyncResult → ImapSyncSummary → ImapSyncSummary
processed result s = record {
  configs_processed = suc s.configs_processed;
  configs_skipped = s.configs_skipped;
  messages_ingested = s.messages_ingested + result.messages_ingested;
  duplicates_skipped = s.duplicates_skipped + result.duplicates_skipped;
  human_review_count = s.human_review_count + result.human_review_count;
}

abbrev pub skipped : ImapSyncSummary → ImapSyncSummary
skipped s = record s { configs_skipped = suc s.configs_skipped }

module _ (sha256_hex : String → String) (id_text : ℕ → String) where
  -- One worker alone, an input for each of its accesses.
  unfoldable pub run : ℕ → List Input → Pc → Db → Db × Pc
  run box_id [] p db = (db, p)
  run box_id (i ∷ inputs) p db =
      let (after, q) = step sha256_hex id_text box_id i p db in run box_id inputs q after

  -- `syncOneConfig`, with the row that `syncAll` has read
  unfoldable pub sync_one_config : ℕ → MailConfiguration → List Input → Db → Db × Pc
  sync_one_config box_id c inputs db =
      run box_id inputs (begin box_id c (classify_cursor_state c)) db

  module _ (inputs : ℕ → List Input) (error_text : ℕ → Text) where
    -- What follows the run of a mailbox; what it throws is caught.
    abbrev pub after_config :
        ℕ → Db → Option ImapConfigSyncResult → ImapSyncSummary → Db × ImapSyncSummary
    after_config box_id db (some result) s = (db, processed result s)
    after_config box_id db none s = (
      record_imap_health box_id HealthStatus.unavailable (sanitize_error (error_text box_id)) db,
      skipped s,
    )

    unfoldable pub sync_each : Table MailConfiguration → Db → ImapSyncSummary → Db × ImapSyncSummary
    sync_each [] db s = (db, s)
    sync_each ((k, c) ∷ l) db s =
        let (after, p) = sync_one_config k c (inputs k) db in
        let (recorded, counted) = after_config k after (settled p) s in sync_each l recorded counted

    -- `syncAll`
    unfoldable pub sync_all : Option String → Db → Db × ImapSyncSummary
    unfolding sync_configs
    sync_all node_env db = sync_each (sync_configs node_env db) db no_summary
