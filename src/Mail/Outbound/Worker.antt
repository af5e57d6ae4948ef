-- ===== src/Mail/Outbound/Worker.antt =====
-- `processOne` of mail-outbound.service.ts, a database access at a time, so that other workers and
-- the rest of the application may act between any two of them. The reads of one call of
-- `evaluateEligibility` are taken at one instant, and so are a write and the audit or health event
-- that follows it.
pub mod Runs
use crm_nusrv.Base.{
  ℕ, Bool, true, false, Option, none, some, String, List, [], ◌∷◌, ◌++◌, if◌then◌else◌,
}
use crm_nusrv.Store.{Db}
use crm_nusrv.Store.Rows.{Outbox}
use crm_nusrv.Mail.Configuration.{Mailbox, Setting}
use crm_nusrv.Mail.SmtpErrors.{SmtpError}
use crm_nusrv.Mail.Outbound.{
  claim, read_token, Context, load_context, Eligible, Reason, EligibilityResult, eligible, defer,
  cancel, evaluate_eligibility,
}
use crm_nusrv.Mail.Outbound.Writes.{
  defer_to_queued, cancel_row, rebind_recipient_and_message, mark_attempt,
}
use crm_nusrv.Mail.Outbound.Materialize.{
  Materialized, MaterializeResult, materialized, ownership_lost, Fresh, materialize,
}
use crm_nusrv.Mail.Outbound.Recording.{
  Recorded, recorded, lost, threw, record_success, record_failure,
}

-- `OutboxProcessingOutcome`
pub data Outcome : Type 0 where
  sent deferred cancelled failed not_claimed conflict ownership_lost_after_send : Outcome

-- The local variables of `processOne`, once the row is claimed and loaded.
pub record Job : Type 0 where
  pub token : ℕ
  pub now : ℕ
  pub context : Context

-- Where a worker stands: before the access that the name tells.
pub data Pc : Type 0 where
  start : Pc
  reading : (now : ℕ) → Pc  -- before the read of the lease token
  loading : (token now : ℕ) → Pc
  checking : Job → Pc
  resolving : (token : ℕ) → (for_good : Bool) → Reason → Pc
  rebinding : Job → Eligible → Pc
  materializing : Job → Mailbox → (recipient : String) → Pc
  reloading : Job → Materialized → (recipient : String) → Pc
  rechecking : Job → Materialized → (recipient : String) → (latest : Context) → Pc
  rebinding_again : Job → Materialized → (latest : Context) → Eligible → Pc
  marking : Job → Materialized → (recipient : String) → Pc
  sending : Job → Materialized → (recipient : String) → Pc
  recording : Job → Materialized → Option SmtpError → Pc
  done : Outcome → Pc
  thrown : Pc

-- A message that was handed to the SMTP transport.
pub record Transmission : Type 0 where
  pub message_id : String
  pub mailbox_id : ℕ
  pub from_address : String
  pub to_address : String
  pub subject : String
  pub text : String

-- What a step takes from outside: the clock, new ids, and what the transport throws, if anything.
pub record Input : Type 0 where
  pub clock : ℕ
  pub fresh : Fresh
  pub smtp : Option SmtpError

pub record After : Type 0 where
  pub db : Db
  pub pc : Pc
  pub transmitted : List Transmission

abbrev pub goes : Db → Pc → After
goes db pc = record { db = db; pc = pc; transmitted = [] }

-- After a first check that found the row eligible.
abbrev pub after_check : Job → EligibilityResult → Pc
after_check job (eligible e) =
    if e.recipient_changed then rebinding job e else materializing job e.mailbox e.recipient
after_check job (defer reason) = resolving job.token false reason
after_check job (cancel reason) = resolving job.token true reason

abbrev pub after_recheck : Job → Materialized → String → Context → EligibilityResult → Pc
after_recheck job m recipient latest (eligible e) =
    if e.recipient_changed then rebinding_again job m latest e else marking job m recipient
after_recheck job m recipient latest (defer reason) = resolving job.token false reason
after_recheck job m recipient latest (cancel reason) = resolving job.token true reason

abbrev pub after_claim : ℕ → Bool → Pc
after_claim now true = reading now
after_claim now false = done not_claimed

abbrev pub after_read : ℕ → Option ℕ → Pc
after_read now none = thrown
after_read now (some token) = loading token now

abbrev pub after_load : ℕ → ℕ → Option Context → Pc
after_load token now none = thrown
after_load token now (some c) = checking (record { token = token; now = now; context = c })

abbrev pub after_reload : Job → Materialized → String → Option Context → Pc
after_reload job m recipient none = thrown
after_reload job m recipient (some latest) = rechecking job m recipient latest

-- The next step if a guard matched, `'conflict'` if not.
abbrev pub or_conflict : Pc → Bool → Pc
or_conflict pc true = pc
or_conflict pc false = done conflict

abbrev pub after_materialize : Job → String → MaterializeResult → Pc
after_materialize job recipient (materialized m) = reloading job m recipient
after_materialize job recipient ownership_lost = done conflict
after_materialize job recipient MaterializeResult.thrown = thrown

abbrev pub after_record : Outcome → Recorded → Pc
after_record outcome recorded = done outcome
after_record outcome lost = done ownership_lost_after_send
after_record outcome threw = thrown

abbrev pub transmission : Job → Materialized → String → Transmission
transmission job m recipient = record {
  message_id = m.message_id_header;
  mailbox_id = m.mailbox.0;
  from_address = m.mailbox.1.from_address;
  to_address = recipient;
  subject = job.context.row.subject;
  text = job.context.row.body;
}

abbrev pub pair : Db × Bool → (Bool → Pc) → After
pair (db, b) next = goes db (next b)

abbrev pub pair_m : Db × MaterializeResult → (MaterializeResult → Pc) → After
pair_m (db, r) next = goes db (next r)

abbrev pub pair_r : Db × Recorded → (Recorded → Pc) → After
pair_r (db, r) next = goes db (next r)

module _ (node_env : Option String) (id : ℕ) where
  abbrev pub setting : Input → Setting
  setting i = record { node_env = node_env; now = i.clock; check_cutover = true }

  -- One access of the worker, and where it stands then.
  unfoldable pub step : Input → Pc → Db → After
  step i start db = pair (claim id i.clock db) (after_claim i.clock)
  step i (reading now) db = goes db (after_read now (read_token id db))
  step i (loading token now) db = goes db (after_load token now (load_context id db))
  step i (checking job) db =
      goes db (after_check job (evaluate_eligibility (setting i) job.context job.now db))
  step i (resolving token false reason) db =
      pair (defer_to_queued id reason token db) (or_conflict (done deferred))
  step i (resolving token true reason) db =
      pair (cancel_row id reason token db) (or_conflict (done cancelled))
  step i (rebinding job e) db =
      pair (rebind_recipient_and_message id job.context.row e.recipient job.token db)
        (or_conflict (materializing job e.mailbox e.recipient))
  step i (materializing job box recipient) db =
      pair_m (materialize id job.context.row box recipient job.now job.token i.fresh db)
        (after_materialize job recipient)
  step i (reloading job m recipient) db =
      goes db (after_reload job m recipient (load_context id db))
  step i (rechecking job m recipient latest) db =
      goes db
        (after_recheck job m recipient latest (evaluate_eligibility (setting i) latest i.clock db))
  step i (rebinding_again job m latest e) db =
      pair (rebind_recipient_and_message id latest.row e.recipient job.token db)
        (or_conflict (marking job m e.recipient))
  step i (marking job m recipient) db =
      pair (mark_attempt id job.token db) (or_conflict (sending job m recipient))
  step i (sending job m recipient) db = record {
    db = db;
    pc = recording job m i.smtp;
    transmitted = transmission job m recipient ∷ [];
  }
  step i (recording job m none) db =
      pair_r (record_success id m.mailbox.0 job.token db) (after_record sent)
  step i (recording job m (some error)) db =
      pair_r (record_failure id m.mailbox.0 error job.token db) (after_record failed)
  step i (done outcome) db = goes db (done outcome)
  step i thrown db = goes db thrown

  -- A worker alone, over the inputs that it meets.
  unfoldable pub run : List Input → After → After
  unfolding step
  run [] a = a
  run (i ∷ inputs) a =
      let next = step i a.pc a.db in
      run inputs (record next { transmitted = a.transmitted ++ next.transmitted })
