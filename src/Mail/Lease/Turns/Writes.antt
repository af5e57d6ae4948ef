-- ===== src/Mail/Lease/Turns/Writes.antt =====
-- The guarded writes to the row.
use crm_nusrv.Mail.Outbound.Worker.{
  Outcome, deferred, cancelled, Job, Pc, start, resolving, rebinding, materializing,
  rebinding_again, marking, sending, done, Input, step,
}
use crm_nusrv.Mail.Outbound.Writes.{
  unattempted, to_status, to_recipient, counted, reason_text, owned,
}
use crm_nusrv.Mail.Outbound.{Reason, Context, Eligible}
use crm_nusrv.Base.{
  Text, ℕ, ◌≡◌, refl, Bool, true, false, Option, some, String, find, arith, inl, inr,
}
use crm_nusrv.Store.{Db}
use crm_nusrv.Store.Enums.{OutboxStatus}
use crm_nusrv.Store.Rows.{Outbox}
use crm_nusrv.Mail.Outbound.Materialize.{Materialized}
use crm_nusrv.Mail.Outbound.Guarded
use crm_nusrv.Mail.Lease.Knowledge.{
  Knows, IsSound, TurnOf, owned-Owns, Keeps, guard-turn, quiet-turn,
}

module _ (node_env : Option String) (id : ℕ) (i : Input) (db : Db) (r : Outbox)
    (stored : find id db.outbox ≡ some r) (sound : IsSound r) where
  -- The writes that end the work on the row.
  pub last_write :
      (t : ℕ) (p : Pc) (outcome : Outcome) (status : OutboxStatus) (error : Option Text)
      → owned t r ≡ true
      → Keeps t r (to_status status error r) (done outcome)
  last_write t p outcome status error o = record {
    owner = o;
    lease = refl;
    goes_on = inl refl;
    no_read = refl;
    pinned = λ _. record { recipient = refl; header = refl; message = refl; counted = omega arith };
    sound = record { together = sound.together; unsent = sound.unsent };
    knows = tt;
  }

  pub turn-resolving :
      (token : ℕ) (for_good : Bool) (reason : Reason)
      → TurnOf id i.clock r
          (resolving token for_good reason)
          (step node_env id i (resolving token for_good reason) db)
  unfolding step
  turn-resolving token false reason =
      let (row, hit) = Guarded.row-defer id db r stored reason token in
      guard-turn id i.clock token r (resolving token false reason) (done deferred) (owned token)
        (to_status OutboxStatus.queued (some (reason_text reason)))
        (step node_env id i (resolving token false reason) db) refl
        (last_write token start deferred OutboxStatus.queued (some (reason_text reason))) row
        (rw hit refl)
  turn-resolving token true reason =
      let (row, hit) = Guarded.row-cancel id db r stored reason token in
      guard-turn id i.clock token r (resolving token true reason) (done cancelled) (owned token)
        (to_status OutboxStatus.cancelled (some (reason_text reason)))
        (step node_env id i (resolving token true reason) db) refl
        (last_write token start cancelled OutboxStatus.cancelled (some (reason_text reason))) row
        (rw hit refl)

  pub turn-rebinding :
      (job : Job) (e : Eligible)
      → Knows r (rebinding job e)
      → TurnOf id i.clock r (rebinding job e) (step node_env id i (rebinding job e) db)
  unfolding step
  turn-rebinding job e k =
      let (row, hit) = Guarded.row-rebind id db r stored job.context.row e.recipient job.token in
      guard-turn id i.clock job.token r (rebinding job e) (materializing job e.mailbox e.recipient)
        (unattempted job.token) (to_recipient e.recipient) (step node_env id i (rebinding job e) db)
        refl keeps row (rw hit refl)
    where
      keeps :
          unattempted job.token r ≡ true
          → Keeps job.token r (to_recipient e.recipient r) (materializing job e.mailbox e.recipient)
      keeps g = record {
        owner = ground arith;
        lease = refl;
        goes_on = inr (refl, ground arith);
        no_read = refl;
        pinned = λ h. absurd (ground arith);
        sound = record { together = sound.together; unsent = sound.unsent };
        knows = λ o. (refl, (k o).message, (k o).header);
      }

  pub turn-rebinding_again :
      (job : Job) (m : Materialized) (latest : Context) (e : Eligible)
      → Knows r (rebinding_again job m latest e)
      → TurnOf id i.clock r
          (rebinding_again job m latest e)
          (step node_env id i (rebinding_again job m latest e) db)
  unfolding step
  turn-rebinding_again job m latest e k =
      let (row, hit) = Guarded.row-rebind id db r stored latest.row e.recipient job.token in
      guard-turn id i.clock job.token r (rebinding_again job m latest e) (marking job m e.recipient)
        (unattempted job.token) (to_recipient e.recipient)
        (step node_env id i (rebinding_again job m latest e) db) refl keeps row (rw hit refl)
    where
      keeps :
          unattempted job.token r ≡ true
          → Keeps job.token r (to_recipient e.recipient r) (marking job m e.recipient)
      keeps g = record {
        owner = ground arith;
        lease = refl;
        goes_on = inr (refl, ground arith);
        no_read = refl;
        pinned = λ h. absurd (ground arith);
        sound = record { together = sound.together; unsent = sound.unsent };
        knows = λ o. record { to = refl; header = (k o).0; message = (k o).1 };
      }

  pub turn-marking :
      (job : Job) (m : Materialized) (recipient : String)
      → Knows r (marking job m recipient)
      → TurnOf id i.clock r
          (marking job m recipient)
          (step node_env id i (marking job m recipient) db)
  unfolding step
  turn-marking job m recipient k =
      let (row, hit) = Guarded.row-mark id db r stored job.token in
      guard-turn id i.clock job.token r (marking job m recipient) (sending job m recipient)
        (owned job.token) counted (step node_env id i (marking job m recipient) db) refl keeps row
        (rw hit refl)
    where
      keeps : owned job.token r ≡ true → Keeps job.token r (counted r) (sending job m recipient)
      keeps g =
          let (owns, processing) = owned-Owns job.token r g in
          let known = k owns in
          record {
            owner = g;
            lease = refl;
            goes_on = inr (refl, processing);
            no_read = refl;
            pinned = λ h. record {
              recipient = refl;
              header = refl;
              message = refl;
              counted = omega arith;
            };
            sound = record { together = sound.together; unsent = λ n. cc known.message };
            knows = (
              record { to = known.to; header = known.header; message = known.message },
              omega arith,
            );
          }

  pub turn-sending :
      (job : Job) (m : Materialized) (recipient : String)
      → TurnOf id i.clock r
          (sending job m recipient)
          (step node_env id i (sending job m recipient) db)
  unfolding step
  turn-sending job m recipient =
      quiet-turn id i.clock r (sending job m recipient)
        (step node_env id i (sending job m recipient) db) stored (inr refl) refl tt
