-- ===== src/Mail/Inbound/Safety/Moves.antt =====
-- What one access of one worker does to the cursor and to what is stored.
use crm_nusrv.Mail.Inbound.Sync.{equals, record_imap_health}
use crm_nusrv.Mail.Inbound.Worker.{
  settle_cursor, reread_bootstrap, reread_cursor, reached, after_state, ImapConfigSyncResult, Input,
  Run, Pc, start, failing_closed, bootstrapping, establishing, lost_bootstrap, fetching, resetting,
  storing, advancing, reporting_failure, lost_cursor, done, thrown, step, after_ingest,
}
use crm_nusrv.Store.Enums.{HealthStatus}
use crm_nusrv.Base.{
  Text, ℕ, ◌≡◌, ◌≢◌, refl, sym, ◌∙◌, inl, inr, Option, none, some, String, List, [], ◌∷◌, find,
  arith, Bool-cases,
}
use mathlib.Core.Path.{subst}
use crm_nusrv.Store.{Db}
use crm_nusrv.Store.Rows.{MailConfiguration}
use crm_nusrv.Mail.Inbound.{
  FetchedMailboxMessage, Source, Ingested, inserted, duplicate, failed, ingest_one_message,
}
use crm_nusrv.Mail.Inbound.System.{System, Stored, Answers}
use crm_nusrv.Mail.Inbound.Safety.{Inv, IsRun, Local, Follow}
use crm_nusrv.Mail.Inbound.Safety.Storing.{ingest-IsHandled}
use crm_nusrv.Mail.Inbound.Safety.Turn.{
  stays, Turn, with_db, IsAt-configs, quiet, classified, begun, started-Local, fetched-Local,
  kept-IsRun,
}
use crm_nusrv.Mail.Inbound.Safety.Swaps.{turn-advancing, turn-establishing}

module _ (sha256_hex : String → String) (id_text : ℕ → String) (source : Source) (baseline : ℕ)
    (s : System) (inv : Inv source baseline sha256_hex id_text s) where
  module _ (no_collision : (a b : String) → sha256_hex a ≡ sha256_hex b → a ≡ b)
      (texts : (a b : ℕ) → id_text a ≡ id_text b → a ≡ b) where
    ingested-Local :
        (r : Run) (m : FetchedMailboxMessage) (l : List FetchedMailboxMessage) (n : ℕ) (after : Db)
        (o : Ingested)
        → IsRun source baseline (with_db sha256_hex id_text source baseline s after) r
        → Follow s.mailbox r.expected_cursor (m ∷ l)
        → (o ≢ failed → Stored source m.uid after)
        → Local source baseline
            (with_db sha256_hex id_text source baseline s after)
            (after_ingest r m l n o)
    ingested-Local r m l n after failed run f h = tt
    ingested-Local r m l n after duplicate run f h = (run, f, h (λ e. cc))
    ingested-Local r m l n after (inserted b) run f h = (run, f, h (λ e. cc))

    turn-storing :
        (i : Input) (r : Run) (m : FetchedMailboxMessage) (l : List FetchedMailboxMessage) (n : ℕ)
        → find i.draw.thread_id s.db.threads ≡ none
        → IsRun source baseline s r
        → Follow s.mailbox r.expected_cursor (m ∷ l)
        → Turn sha256_hex id_text source baseline s inv.cursor
            (ingest_one_message sha256_hex id_text r.source m i.draw s.db).0
            (after_ingest r m l n (ingest_one_message sha256_hex id_text r.source m i.draw s.db).1)
    turn-storing i r m l n unused run f =
        let h =
          ingest-IsHandled sha256_hex id_text no_collision texts source m i.draw s.db unused
            inv.keyed in
        subst
          (λ (x : Source).
            Turn sha256_hex id_text source baseline s inv.cursor
              (ingest_one_message sha256_hex id_text x m i.draw s.db).0
              (after_ingest r m l n (ingest_one_message sha256_hex id_text x m i.draw s.db).1))
          (sym run.same_source)
          (record {
            cursor = inv.cursor;
            at = IsAt-configs sha256_hex id_text source baseline s inv _ h.configs;
            advance = stays;
            kept = λ uid. h.kept source uid;
            keyed = h.keyed_after;
            local =
                ingested-Local r m l n _ _
                  (kept-IsRun sha256_hex id_text source baseline s inv _ r
                    (λ uid. h.kept source uid) run)
                  f h.held;
          })

  health-kept :
      (box_id : ℕ) (status : HealthStatus) (text : Text) (db : Db)
      → ((record_imap_health box_id status text db).messages ≡ db.messages)
        × ((record_imap_health box_id status text db).mail_configurations ≡ db.mail_configurations)
  unfolding record_imap_health
  health-kept box_id status text db = ground arith

  -- An access that writes a health event after `before`.
  reported :
      (box_id : ℕ) (status : HealthStatus) (text : Text) (before : Db)
      (result : ImapConfigSyncResult)
      → before.messages ≡ s.db.messages
      → before.mail_configurations ≡ s.db.mail_configurations
      → Turn sha256_hex id_text source baseline s inv.cursor
          (record_imap_health box_id status text before)
          (done result)
  reported box_id status text before result same configs =
      let (a, b) = health-kept box_id status text before in
      quiet sha256_hex id_text source baseline s inv _ _ (a ∙ same) (b ∙ configs) tt

  state-Local : (answer : Option (ℕ × ℕ)) → Local source baseline s (after_state answer)
  state-Local none = tt
  state-Local (some (v, n)) = tt

  turn-lost_bootstrap :
      Turn sha256_hex id_text source baseline s inv.cursor
        (reread_bootstrap source.box_id (find source.box_id s.db.mail_configurations) s.db).0
        (reread_bootstrap source.box_id (find source.box_id s.db.mail_configurations) s.db).1
  turn-lost_bootstrap = rw inv.at.found (
      rw (classified sha256_hex id_text source baseline s inv)
        (quiet sha256_hex id_text source baseline s inv _ _ refl refl tt))

  settled :
      (r : Run) (uid : ℕ) (c : MailConfiguration)
      → Turn sha256_hex id_text source baseline s inv.cursor
          (settle_cursor r uid c s.db)
          (done r.result)
  settled r uid c = elim (Bool-cases (equals c.last_sync_uid_validity r.source.uid_validity)) [
    | inl same ↦ rw same (elim (Bool-cases (reached c.last_sync_uid uid)) [
      | inl past ↦ rw past (quiet sha256_hex id_text source baseline s inv _ _ refl refl tt)
      | inr behind ↦ rw behind (reported _ _ _ _ r.result refl refl)
    ])
    | inr changed ↦ rw changed (reported _ _ _ _ r.result refl refl)
  ]

  turn-lost_cursor :
      (r : Run) (uid : ℕ)
      → Turn sha256_hex id_text source baseline s inv.cursor
          (reread_cursor r uid (find source.box_id s.db.mail_configurations) s.db).0
          (reread_cursor r uid (find source.box_id s.db.mail_configurations) s.db).1
  turn-lost_cursor r uid = rw inv.at.found (settled r uid inv.at.config)

  -- What a worker's access does, wherever it stands.
  pub step-Turn :
      ((a b : String) → sha256_hex a ≡ sha256_hex b → a ≡ b)
      → ((a b : ℕ) → id_text a ≡ id_text b → a ≡ b)
      → (i : Input) (p : Pc) → Local source baseline s p
      → ((r : Run) → p ≡ fetching r → Answers sha256_hex id_text source s r i.fetch)
      → find i.draw.thread_id s.db.threads ≡ none
      → Turn sha256_hex id_text source baseline s inv.cursor
          (step sha256_hex id_text source.box_id i p s.db).0
          (step sha256_hex id_text source.box_id i p s.db).1
  unfolding step
  step-Turn no_collision texts i start l answers unused =
      quiet sha256_hex id_text source baseline s inv s.db _ refl refl (
        rw (begun sha256_hex id_text source baseline s inv)
          (started-Local sha256_hex id_text source baseline s inv))
  step-Turn no_collision texts i failing_closed l answers unused = reported _ _ _ _ _ refl refl
  step-Turn no_collision texts i (bootstrapping folder) l answers unused =
      quiet sha256_hex id_text source baseline s inv s.db _ refl refl (state-Local i.mailbox_state)
  step-Turn no_collision texts i (establishing v b) l answers unused =
      turn-establishing sha256_hex id_text source baseline s inv i v b
  step-Turn no_collision texts i lost_bootstrap l answers unused = turn-lost_bootstrap
  step-Turn no_collision texts i (fetching r) l answers unused =
      quiet sha256_hex id_text source baseline s inv s.db _ refl refl
        (fetched-Local sha256_hex id_text source baseline s inv r i.fetch l (answers r refl))
  step-Turn no_collision texts i (resetting result) l answers unused = reported _ _ _ _ _ refl refl
  step-Turn no_collision texts i (storing r [] n) l answers unused = reported _ _ _ _ _ refl refl
  step-Turn no_collision texts i (storing r (m ∷ rest) n) (run, f) answers unused =
      turn-storing no_collision texts i r m rest n unused run f
  step-Turn no_collision texts i (advancing r m rest n o) (run, f, h) answers unused =
      turn-advancing sha256_hex id_text source baseline s inv i r m rest n o run f h
  step-Turn no_collision texts i (reporting_failure r m) l answers unused =
      reported _ _ _ _ _ refl refl
  step-Turn no_collision texts i (lost_cursor r uid) l answers unused = turn-lost_cursor r uid
  step-Turn no_collision texts i (done result) l answers unused =
      quiet sha256_hex id_text source baseline s inv s.db _ refl refl tt
  step-Turn no_collision texts i thrown l answers unused =
      quiet sha256_hex id_text source baseline s inv s.db _ refl refl tt
