-- ===== src/Mail/Inbound/Batch/Ends.antt =====
-- The run of a mailbox ends, and every enabled mailbox is counted.
use crm_nusrv.Base.{
  ℕ, ◌+◌, ◌*◌, ◌-◌, ◌≤◌, ◌≡◌, ◌⊎◌, refl, inl, inr, Bool, true, false, Option, none, some, List, [],
  ◌∷◌, All, length, arith, String, find,
}
use crm_nusrv.Store.{Db}
use crm_nusrv.Store.Rows.{MailConfiguration}
use crm_nusrv.Mail.Inbound.{
  FetchedMailboxMessage, Ingested, inserted, duplicate, failed, ingest_one_message,
}
use crm_nusrv.Mail.Inbound.Sync.{
  CursorState, uninitialized, inconsistent, established, classify_cursor_state, advance_cursor,
}
use crm_nusrv.Mail.Inbound.System.{batch_size}
use crm_nusrv.Mail.Inbound.Worker.{
  ImapConfigSyncResult, Input, Run, Pc, start, failing_closed, bootstrapping, establishing,
  lost_bootstrap, fetching, resetting, storing, advancing, reporting_failure, lost_cursor, done,
  thrown, step, begin, begin_at, after_state, after_fetch, after_ingest, after_advance, or_lost,
  reread_bootstrap, reread_cursor, FetchSinceResult, fetched, uidvalidity_changed, reader_throws,
}
use crm_nusrv.Mail.Inbound.Batch.{run, sync_one_config}

-- The accesses that are left at most.
abbrev pub left : Pc → ℕ
left start = 203
left failing_closed = 1
left (bootstrapping folder) = 3
left (establishing v b) = 2
left lost_bootstrap = 1
left (fetching r) = 202
left (resetting result) = 1
left (storing r l n) = 2 * length l + 1
left (advancing r m l n o) = 2 * length l + 2
left (reporting_failure r m) = 1
left (lost_cursor r uid) = 1
left (done result) = 0
left thrown = 0

-- The reader answers at most a batch.
abbrev pub IsBatch : FetchSinceResult → Type 0
IsBatch (fetched messages) = length messages ≤ batch_size
IsBatch _ = Unit

abbrev pub IsOver : Pc → Type 0
IsOver p = (p ≡ thrown) ⊎ ((result : ImapConfigSyncResult) × (p ≡ done result))

left-IsOver : (p : Pc) → left p ≤ 0 → IsOver p
left-IsOver (done result) h = inr (result, refl)
left-IsOver thrown h = inl refl
left-IsOver start h = absurd (omega (arith, h))
left-IsOver failing_closed h = absurd (omega (arith, h))
left-IsOver (bootstrapping folder) h = absurd (omega (arith, h))
left-IsOver (establishing v b) h = absurd (omega (arith, h))
left-IsOver lost_bootstrap h = absurd (omega (arith, h))
left-IsOver (fetching r) h = absurd (omega (arith, h))
left-IsOver (resetting result) h = absurd (omega (arith, h))
left-IsOver (storing r l n) h = absurd (omega (arith, h))
left-IsOver (advancing r m l n o) h = absurd (omega (arith, h))
left-IsOver (reporting_failure r m) h = absurd (omega (arith, h))
left-IsOver (lost_cursor r uid) h = absurd (omega (arith, h))

begin-left : (box_id : ℕ) (c : MailConfiguration) (s : CursorState) → left (begin box_id c s) ≤ 202
begin-left box_id c uninitialized = omega arith
begin-left box_id c inconsistent = omega arith
begin-left box_id c (established v u) = omega arith

begin_at-left : (box_id : ℕ) (c : Option MailConfiguration) → left (begin_at box_id c) ≤ 202
begin_at-left box_id none = omega arith
begin_at-left box_id (some c) = begin-left box_id c (classify_cursor_state c)

state-left : (answer : Option (ℕ × ℕ)) → left (after_state answer) ≤ 2
state-left none = omega arith
state-left (some (v, n)) = omega arith

fetch-left :
    (r : Run) (answer : FetchSinceResult) → IsBatch answer → left (after_fetch r answer) ≤ 201
fetch-left r (fetched messages) h = omega (arith, h)
fetch-left r (uidvalidity_changed current) h = omega arith
fetch-left r reader_throws h = omega arith

ingest-left :
    (r : Run) (m : FetchedMailboxMessage) (l : List FetchedMailboxMessage) (n : ℕ) (o : Ingested)
    → left (after_ingest r m l n o) ≤ 2 * length l + 2
ingest-left r m l n failed = omega arith
ingest-left r m l n (inserted b) = omega arith
ingest-left r m l n duplicate = omega arith

advance-left :
    (r : Run) (m : FetchedMailboxMessage) (l : List FetchedMailboxMessage) (n : ℕ) (o : Ingested)
    (b : Bool)
    → left (after_advance r m l n o b) ≤ 2 * length l + 1
advance-left r m l n o true = omega arith
advance-left r m l n o false = omega arith

lost-left : (b : Bool) → left (or_lost b) ≤ 1
lost-left true = omega arith
lost-left false = omega arith

bootstrap-left :
    (box_id : ℕ) (c : Option MailConfiguration) (db : Db)
    → left (reread_bootstrap box_id c db).1 ≤ 0
bootstrap-left box_id none db = omega arith
bootstrap-left box_id (some c) db = omega arith

cursor-left :
    (r : Run) (uid : ℕ) (c : Option MailConfiguration) (db : Db)
    → left (reread_cursor r uid c db).1 ≤ 0
cursor-left r uid none db = omega arith
cursor-left r uid (some c) db = omega arith

module _ (sha256_hex : String → String) (id_text : ℕ → String) where
  step-left :
      (box_id : ℕ) (i : Input) (p : Pc) (db : Db)
      → IsBatch i.fetch
      → left (step sha256_hex id_text box_id i p db).1 ≤ left p - 1
  unfolding step
  step-left box_id i start db h = begin_at-left box_id (find box_id db.mail_configurations)
  step-left box_id i failing_closed db h = omega arith
  step-left box_id i (bootstrapping folder) db h = state-left i.mailbox_state
  step-left box_id i (establishing v b) db h = lost-left _
  step-left box_id i lost_bootstrap db h =
      bootstrap-left box_id (find box_id db.mail_configurations) db
  step-left box_id i (fetching r) db h = fetch-left r i.fetch h
  step-left box_id i (resetting result) db h = omega arith
  step-left box_id i (storing r [] n) db h = omega arith
  step-left box_id i (storing r (m ∷ l) n) db h =
      let bound =
        ingest-left r m l n (ingest_one_message sha256_hex id_text r.source m i.draw db).1 in
      omega (arith, bound)
  step-left box_id i (advancing r m l n o) db h =
      let bound =
        advance-left r m l n o
          (advance_cursor box_id r.source.uid_validity r.expected_cursor m.uid i.clock db).1 in
      omega (arith, bound)
  step-left box_id i (reporting_failure r m) db h = omega arith
  step-left box_id i (lost_cursor r uid) db h =
      cursor-left r uid (find box_id db.mail_configurations) db
  step-left box_id i (done result) db h = omega arith
  step-left box_id i thrown db h = omega arith

  run-left :
      (box_id : ℕ) (inputs : List Input) (p : Pc) (db : Db)
      → All (λ i. IsBatch i.fetch) inputs
      → left p ≤ length inputs
      → left (run sha256_hex id_text box_id inputs p db).1 ≤ 0
  unfolding run
  run-left box_id [] p db batches enough = enough
  run-left box_id (i ∷ inputs) p db (h, batches) enough =
      let less = step-left box_id i p db h in
      run-left box_id inputs _ _ batches (omega (arith, less, enough))

  -- The run of a mailbox ends after at most 202 accesses of the database and of the reader, if the
  -- reader answers with at most a batch of messages.
  pub sync_one_config_ends :
      (box_id : ℕ) (c : MailConfiguration) (inputs : List Input) (db : Db)
      → All (λ i. IsBatch i.fetch) inputs
      → 202 ≤ length inputs
      → IsOver (sync_one_config sha256_hex id_text box_id c inputs db).1
  unfolding sync_one_config
  sync_one_config_ends box_id c inputs db batches enough = left-IsOver _ (
      run-left box_id inputs _ db batches
        (let b = begin-left box_id c (classify_cursor_state c) in omega (arith, b, enough)))
