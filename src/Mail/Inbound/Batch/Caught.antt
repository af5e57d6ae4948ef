-- ===== src/Mail/Inbound/Batch/Caught.antt =====
-- A worker alone handles all that the reader answers, unless the storing of a message fails.
use crm_nusrv.Mail.Inbound.Sync.{advance_cursor, record_imap_health, classify_cursor_state}
use crm_nusrv.Base.{
  ◌++◌, ◌∙◌, ◌≢◌, ℕ, suc, ◌+◌, ◌*◌, ◌≤◌, ◌≡◌, ◌⊎◌, refl, sym, ap, inl, inr, some, List, [], ◌∷◌,
  length, arith, String, find, take,
}
use crm_nusrv.Mail.Inbound.Batch.Alone.{
  HasCursor, HasCursor-kept, configurations-ingest, configurations-health, advanced,
}
use crm_nusrv.Mail.Inbound.Worker.{
  sync_text, source_of, no_result, report_failure, after_ingest, ImapConfigSyncResult, Input, Run,
  Pc, storing, advancing, reporting_failure, done, step, fetched, counted,
}
use crm_nusrv.Store.Enums.{HealthStatus}
use mathlib.Core.Path.{subst}
use crm_nusrv.Store.{Db}
use crm_nusrv.Store.Rows.{MailConfiguration}
use crm_nusrv.Mail.Inbound.{
  FetchedMailboxMessage, Ingested, inserted, duplicate, failed, ingest_one_message,
}
use crm_nusrv.Mail.Inbound.Batch.{run, sync_one_config}

-- Where the cursor stands once these are handled.
abbrev pub last_uid : ℕ → List FetchedMailboxMessage → ℕ
last_uid uid [] = uid
last_uid uid (m ∷ l) = last_uid m.uid l

abbrev pub handled_count : ImapConfigSyncResult → ℕ
handled_count r = r.messages_ingested + r.duplicates_skipped

failed-cases : (o : Ingested) → (o ≡ failed) ⊎ (o ≢ failed)
failed-cases failed = inl refl
failed-cases duplicate = inr (λ e. cc)
failed-cases (inserted b) = inr (λ e. cc)

module _ (sha256_hex : String → String) (id_text : ℕ → String) where
  -- Where the run stops: after `handled` messages, each of which takes two accesses, it comes to a
  -- message, and what it meets there makes the storing of that message fail.
  pub record Stops (r : Run) (l : List FetchedMailboxMessage) (n : ℕ) (inputs : List Input)
      (db : Db) (handled : ℕ) : Type 0 where
    pub before : Db
    pub at : Run
    pub message : FetchedMailboxMessage
    pub rest : List FetchedMailboxMessage
    pub input : Input
    pub more : List Input
    pub used : List Input
    pub split : inputs ≡ used ++ input ∷ more
    pub long : length used ≡ 2 * handled
    pub reached :
        run sha256_hex id_text r.source.box_id used (storing r l n) db
        ≡ (before, storing at (message ∷ rest) n)
    pub fails :
        (ingest_one_message sha256_hex id_text at.source message input.draw before).1 ≡ failed

  -- The run that begins with `inputs` before the storing of `l` is over; so many of the messages are
  -- handled and counted, and the cursor stands at the last of them.
  pub record Caught (r : Run) (l : List FetchedMailboxMessage) (n : ℕ) (inputs : List Input)
      (db : Db) : Type 0 where
    pub handled : ℕ
    pub result : ImapConfigSyncResult
    pub over : (run sha256_hex id_text r.source.box_id inputs (storing r l n) db).1 ≡ done result
    pub counts : handled_count result ≡ handled_count r.result + handled
    pub cursor :
        HasCursor r.source.box_id r.source.uid_validity
          (last_uid r.expected_cursor (take handled l))
          (run sha256_hex id_text r.source.box_id inputs (storing r l n) db).0
    pub complete : (handled ≡ length l) ⊎ Stops r l n inputs db handled

  run-done :
      (box_id : ℕ) (inputs : List Input) (result : ImapConfigSyncResult) (db : Db)
      → run sha256_hex id_text box_id inputs (done result) db ≡ (db, done result)
  unfolding run step
  run-done box_id [] result db = refl
  run-done box_id (i ∷ inputs) result db = run-done box_id inputs result db

  handled_count-counted :
      (o : Ingested) (result : ImapConfigSyncResult)
      → handled_count (counted o result) ≡ suc (handled_count result)
  handled_count-counted (inserted review) result = omega arith
  handled_count-counted duplicate result = omega arith
  handled_count-counted failed result = omega arith

  -- The run after the report of a failure.
  reported :
      (r : Run) (m : FetchedMailboxMessage) (j : Input) (inputs : List Input) (db : Db)
      → run sha256_hex id_text r.source.box_id (j ∷ inputs) (reporting_failure r m) db
        ≡ (report_failure r j.error_text db, done r.result)
  unfolding run step
  reported r m j inputs db =
      run-done r.source.box_id inputs r.result (report_failure r j.error_text db)

  abbrev stored_by : Run → FetchedMailboxMessage → Input → Db → Db
  stored_by r m i db = (ingest_one_message sha256_hex id_text r.source m i.draw db).0

  stored_by-HasCursor :
      (r : Run) (m : FetchedMailboxMessage) (i : Input) (db : Db)
      → HasCursor r.source.box_id r.source.uid_validity r.expected_cursor db
      → HasCursor r.source.box_id r.source.uid_validity r.expected_cursor (stored_by r m i db)
  stored_by-HasCursor r m i db h =
      HasCursor-kept db _ (configurations-ingest sha256_hex id_text r.source m i.draw db) h

  -- Two accesses, when the storing fails.
  failing :
      (r : Run) (m : FetchedMailboxMessage) (l : List FetchedMailboxMessage) (n : ℕ) (i j : Input)
      (inputs : List Input) (db : Db)
      → (ingest_one_message sha256_hex id_text r.source m i.draw db).1 ≡ failed
      → run sha256_hex id_text r.source.box_id (i ∷ j ∷ inputs) (storing r (m ∷ l) n) db
        ≡ (report_failure r j.error_text (stored_by r m i db), done r.result)
  unfolding run step
  failing r m l n i j inputs db e = rw e (reported r m j inputs (stored_by r m i db))

  failing-Caught :
      (r : Run) (m : FetchedMailboxMessage) (l : List FetchedMailboxMessage) (n : ℕ) (i j : Input)
      (inputs : List Input) (db : Db)
      → HasCursor r.source.box_id r.source.uid_validity r.expected_cursor db
      → (ingest_one_message sha256_hex id_text r.source m i.draw db).1 ≡ failed
      → Caught r (m ∷ l) n (i ∷ j ∷ inputs) db
  failing-Caught r m l n i j inputs db h e =
      let all = failing r m l n i j inputs db e in
      record {
        handled = 0;
        result = r.result;
        over = ap (λ (x : Db × Pc). x.1) all;
        counts = omega arith;
        cursor =
            subst (λ (x : Db). HasCursor r.source.box_id r.source.uid_validity r.expected_cursor x)
              (sym (ap (λ (x : Db × Pc). x.0) all))
              (HasCursor-kept (stored_by r m i db) _ (configurations-health _ _ _ _)
                (stored_by-HasCursor r m i db h));
        complete = inr (record {
          before = db;
          at = r;
          message = m;
          rest = l;
          input = i;
          more = j ∷ inputs;
          used = [];
          split = refl;
          long = omega arith;
          reached = unfold run in refl;
          fails = e;
        });
      }

  abbrev next_run : Run → FetchedMailboxMessage → Ingested → Run
  next_run r m o = record r { expected_cursor = m.uid; result = counted o r.result }

  abbrev moved_by : Run → FetchedMailboxMessage → Input → Input → Db → Db
  moved_by r m i j db =
      (advance_cursor r.source.box_id r.source.uid_validity r.expected_cursor m.uid j.clock
        (stored_by r m i db)).0

  advancing_on :
      (r : Run) (m : FetchedMailboxMessage) (l : List FetchedMailboxMessage) (n : ℕ) (o : Ingested)
      → o ≢ failed
      → after_ingest r m l n o ≡ advancing r m l n o
  advancing_on r m l n failed e = absurd (e refl)
  advancing_on r m l n duplicate e = refl
  advancing_on r m l n (inserted b) e = refl

  -- Two accesses, when the storing does not fail.
  handling :
      (r : Run) (m : FetchedMailboxMessage) (l : List FetchedMailboxMessage) (n : ℕ) (i j : Input)
      (inputs : List Input) (db : Db)
      → HasCursor r.source.box_id r.source.uid_validity r.expected_cursor db
      → (ingest_one_message sha256_hex id_text r.source m i.draw db).1 ≢ failed
      → run sha256_hex id_text r.source.box_id (i ∷ j ∷ inputs) (storing r (m ∷ l) n) db
        ≡ run sha256_hex id_text r.source.box_id inputs
            (storing
              (next_run r m (ingest_one_message sha256_hex id_text r.source m i.draw db).1)
              l
              n)
            (moved_by r m i j db)
  unfolding run step
  handling r m l n i j inputs db h e =
      let (won, _) =
        advanced r.source.box_id r.source.uid_validity r.expected_cursor m.uid j.clock
          (stored_by r m i db) (stored_by-HasCursor r m i db h) in
      rw (advancing_on r m l n _ e) (rw won refl)

  -- What holds of the rest of the run holds of it with one more message before.
  handling-Caught :
      (r : Run) (m : FetchedMailboxMessage) (l : List FetchedMailboxMessage) (n : ℕ) (i j : Input)
      (inputs : List Input) (db : Db)
      → HasCursor r.source.box_id r.source.uid_validity r.expected_cursor db
      → (ingest_one_message sha256_hex id_text r.source m i.draw db).1 ≢ failed
      → Caught
          (next_run r m (ingest_one_message sha256_hex id_text r.source m i.draw db).1)
          l
          n
          inputs
          (moved_by r m i j db)
      → Caught r (m ∷ l) n (i ∷ j ∷ inputs) db
  handling-Caught r m l n i j inputs db h e c =
      let o = (ingest_one_message sha256_hex id_text r.source m i.draw db).1 in
      let all = handling r m l n i j inputs db h e in
      record {
        handled = suc c.handled;
        result = c.result;
        over = ap (λ (x : Db × Pc). x.1) all ∙ c.over;
        counts = let k = handled_count-counted o r.result in omega (arith, k, c.counts);
        cursor =
            subst
              (λ (x : Db).
                HasCursor r.source.box_id r.source.uid_validity (last_uid m.uid (take c.handled l))
                  x)
              (sym (ap (λ (x : Db × Pc). x.0) all)) c.cursor;
        complete = elim c.complete [
          | inl every ↦ inl (ap suc every)
          | inr s ↦ inr (record {
            before = s.before;
            at = s.at;
            message = s.message;
            rest = s.rest;
            input = s.input;
            more = s.more;
            used = i ∷ j ∷ s.used;
            split = ap (λ (x : List Input). i ∷ j ∷ x) s.split;
            long = omega (arith, s.long);
            reached = handling r m l n i j s.used db h e ∙ s.reached;
            fails = s.fails;
          })
        ];
      }

  storing-Caught :
      (l : List FetchedMailboxMessage) (r : Run) (n : ℕ) (inputs : List Input) (db : Db)
      → 2 * length l + 1 ≤ length inputs
      → HasCursor r.source.box_id r.source.uid_validity r.expected_cursor db
      → Caught r l n inputs db
  storing-Caught l r n [] db enough h = absurd (omega (arith, enough))
  storing-Caught [] r n (i ∷ inputs) db enough h =
      let box_id = r.source.box_id in
      let after = record_imap_health box_id HealthStatus.healthy (sync_text n) db in
      let all : run sha256_hex id_text box_id (i ∷ inputs) (storing r [] n) db
          ≡ (after, done r.result) =
        unfold run step in run-done box_id inputs r.result after in
      record {
        handled = 0;
        result = r.result;
        over = ap (λ (x : Db × Pc). x.1) all;
        counts = omega arith;
        cursor =
            subst (λ (x : Db). HasCursor box_id r.source.uid_validity r.expected_cursor x)
              (sym (ap (λ (x : Db × Pc). x.0) all))
              (HasCursor-kept db after (configurations-health _ _ _ _) h);
        complete = inl refl;
      }
  storing-Caught (m ∷ l) r n (i ∷ []) db enough h = absurd (omega (arith, enough))
  storing-Caught (m ∷ l) r n (i ∷ j ∷ inputs) db enough h =
      let (_, there) =
        advanced r.source.box_id r.source.uid_validity r.expected_cursor m.uid j.clock
          (stored_by r m i db) (stored_by-HasCursor r m i db h) in
      let o = (ingest_one_message sha256_hex id_text r.source m i.draw db).1 in
      let rest =
        storing-Caught l (next_run r m o) n inputs (moved_by r m i j db) (omega (arith, enough))
          there in
      elim (failed-cases o) [
        | inl e ↦ failing-Caught r m l n i j inputs db h e
        | inr e ↦ handling-Caught r m l n i j inputs db h e rest
      ]

  abbrev pub run_of : ℕ → MailConfiguration → ℕ → ℕ → Run
  run_of box_id c uid_validity uid = record {
    source = source_of box_id uid_validity c;
    expected_cursor = uid;
    result = no_result;
  }

  -- The first access of a run whose cursor is set asks the reader.
  asked :
      (box_id uid_validity uid : ℕ) (db : Db) (c : MailConfiguration) (i : Input)
      (inputs : List Input) (messages : List FetchedMailboxMessage)
      → c.last_sync_uid_validity ≡ some uid_validity
      → c.last_sync_uid ≡ some uid
      → i.fetch ≡ fetched messages
      → sync_one_config sha256_hex id_text box_id c (i ∷ inputs) db
        ≡ run sha256_hex id_text box_id inputs
            (storing (run_of box_id c uid_validity uid) messages (length messages))
            db
  unfolding sync_one_config run step classify_cursor_state
  asked box_id uid_validity uid db c i inputs messages validity at answer =
      rw validity (rw at (rw answer refl))

  -- A worker that is alone at a mailbox whose cursor is set, and whose reader answers with a list of
  -- messages, handles all of them, two accesses each, and is done; its counters tell how many
  -- messages it has handled, and the cursor stands at the last of these. It stops before the
  -- end only at a message whose storing fails, with what the run meets there.
  pub sync_one_config-Caught :
      (box_id uid_validity uid : ℕ) (db : Db) (c : MailConfiguration) (i : Input)
      (inputs : List Input) (messages : List FetchedMailboxMessage)
      → find box_id db.mail_configurations ≡ some c
      → c.last_sync_uid_validity ≡ some uid_validity
      → c.last_sync_uid ≡ some uid
      → i.fetch ≡ fetched messages
      → 2 * length messages + 1 ≤ length inputs
      → (sync_one_config sha256_hex id_text box_id c (i ∷ inputs) db
          ≡ run sha256_hex id_text box_id inputs
              (storing (run_of box_id c uid_validity uid) messages (length messages))
              db)
        × Caught (run_of box_id c uid_validity uid) messages (length messages) inputs db
  sync_one_config-Caught box_id uid_validity uid db c i inputs messages found validity at answer
        enough =
      (
        asked box_id uid_validity uid db c i inputs messages validity at answer,
        storing-Caught messages (run_of box_id c uid_validity uid) (length messages) inputs db
            enough (record { config = c; found = found; in_validity = validity; at = at }),
      )
