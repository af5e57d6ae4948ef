-- ===== src/Mail/Inbound/Batch/Alone.antt =====
-- What the accesses of a worker that is alone do to the cursor of its mailbox.
use crm_nusrv.Mail.Inbound.Sync.{record_imap_health, advance_cursor, has_cursor, at_uid}
use crm_nusrv.Base.{
  Text, ℕ, ◌≡◌, refl, ap, ◌∙◌, inl, inr, true, some, arith, Bool-cases, String, find,
  find-update_many, find_first, is_some,
}
use crm_nusrv.Store.Enums.{HealthStatus}
use crm_nusrv.Base.Results.{Result, ok, throw}
use crm_nusrv.Store.{Db}
use crm_nusrv.Store.Rows.{MailConfiguration}
use crm_nusrv.Mail.ThreadUse.{CorrelationOutcome}
use crm_nusrv.Mail.Correlation.Configurations.{correlate_keeps}
use crm_nusrv.Mail.Inbound.{
  FetchedMailboxMessage, Source, Draw, commit, ingest_one_message, has_identity,
}

-- The row of a mailbox, with its cursor.
pub record HasCursor (box_id uid_validity uid : ℕ) (db : Db) : Type 0 where
  pub config : MailConfiguration
  pub found : find box_id db.mail_configurations ≡ some config
  pub in_validity : config.last_sync_uid_validity ≡ some uid_validity
  pub at : config.last_sync_uid ≡ some uid

module _ (sha256_hex : String → String) (id_text : ℕ → String) where
  configurations-commit :
      (key : String) (source : Source) (m : FetchedMailboxMessage) (occurred_at : ℕ) (draw : Draw)
      (db : Db) (answer : Result (Db × CorrelationOutcome))
      → ((after : Db) (o : CorrelationOutcome)
          → answer ≡ ok (after, o)
          → after.mail_configurations ≡ db.mail_configurations)
      → (commit key source m occurred_at draw db answer).0.mail_configurations
        ≡ db.mail_configurations
  configurations-commit key source m occurred_at draw db (throw e) h = refl
  configurations-commit key source m occurred_at draw db (ok (after, o)) h =
      elim (Bool-cases (is_some (find_first (has_identity key) db.messages))) [
        | inl taken ↦ rw taken refl
        | inr new ↦ rw new (h after o refl)
      ]

  pub configurations-ingest :
      (source : Source) (m : FetchedMailboxMessage) (draw : Draw) (db : Db)
      → (ingest_one_message sha256_hex id_text source m draw db).0.mail_configurations
        ≡ db.mail_configurations
  unfolding ingest_one_message
  configurations-ingest source m draw db =
      configurations-commit _ source m _ draw db _ (λ after o h. correlate_keeps db id_text _ _ h)

pub HasCursor-kept :
    {box_id uid_validity uid : ℕ} (db after : Db)
    → after.mail_configurations ≡ db.mail_configurations
    → HasCursor box_id uid_validity uid db
    → HasCursor box_id uid_validity uid after
HasCursor-kept {box_id} db after same h = record {
  config = h.config;
  found = ap (find box_id) same ∙ h.found;
  in_validity = h.in_validity;
  at = h.at;
}

pub configurations-health :
    (box_id : ℕ) (status : HealthStatus) (text : Text) (db : Db)
    → (record_imap_health box_id status text db).mail_configurations ≡ db.mail_configurations
unfolding record_imap_health
configurations-health box_id status text db = ground arith

has_cursor-true :
    {box_id v e : ℕ} {db : Db} (h : HasCursor box_id v e db) → has_cursor v e h.config ≡ true
has_cursor-true h = ground (arith, h.in_validity, h.at)

pub advanced :
    (box_id v e uid now : ℕ) (db : Db)
    → HasCursor box_id v e db
    → ((advance_cursor box_id v e uid now db).1 ≡ true)
      × HasCursor box_id v uid (advance_cursor box_id v e uid now db).0
unfolding advance_cursor
advanced box_id v e uid now db h = (
  ground (arith, h.found, has_cursor-true h),
  record {
    config = at_uid uid now h.config;
    found = ground (
      arith,
      find-update_many box_id box_id (has_cursor v e) (at_uid uid now) db.mail_configurations,
      h.found,
      has_cursor-true h,
    );
    in_validity = h.in_validity;
    at = refl;
  },
)
