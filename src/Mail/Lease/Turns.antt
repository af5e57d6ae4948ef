-- ===== src/Mail/Lease/Turns.antt =====
-- What one access of one worker does to the row, and to what the worker knows of it.
pub mod Checks
pub mod Writes
pub mod Materializing
pub mod Recording
use crm_nusrv.Mail.Lease.Turns.Checks.{
  turn-start, turn-reading, turn-loading, turn-checking, turn-rechecking, turn-reloading,
}
use crm_nusrv.Mail.Lease.Turns.Writes.{
  turn-resolving, turn-rebinding, turn-rebinding_again, turn-marking, turn-sending,
}
use crm_nusrv.Mail.Lease.Turns.Materializing.{turn-materializing}
use crm_nusrv.Mail.Lease.Turns.Recording.{turn-recording}
use crm_nusrv.Mail.Sanitize.{sanitize_error}
use crm_nusrv.Mail.SmtpErrors.{SmtpError}
use crm_nusrv.Mail.Configuration.{Mailbox}
use crm_nusrv.Mail.Outbound.Recording.{
  Recorded, recorded, lost, threw, record_success, record_failure, next_status, is_terminal,
}
use crm_nusrv.Mail.Outbound.Materialize.{
  MaterializeResult, materialized, ownership_lost, generate_stable_message_id, materialize, linked,
  Materialized, Fresh,
}
use crm_nusrv.Mail.Outbound.Worker.{
  Outcome, deferred, cancelled, sent, failed, setting, after_record, Job, Pc, start, reading,
  loading, checking, resolving, rebinding, materializing, reloading, rechecking, rebinding_again,
  marking, sending, recording, done, thrown, Transmission, Input, step, After, conflict,
  or_conflict, after_check, after_recheck, after_materialize,
}
use crm_nusrv.Mail.Outbound.Writes.{
  unattempted, to_status, to_recipient, counted, reason_text, owned,
}
use crm_nusrv.Mail.Outbound.Eligibility.{evaluate_eligibility_unchanged}
use crm_nusrv.Mail.Outbound.{
  Reason, EligibilityResult, eligible, defer, cancel, evaluate_eligibility, Context, load_context,
  claim, read_token, Eligible, claimable, claimed_by,
}
use crm_nusrv.Base.{
  ◌∙◌, Text, ℕ, suc, ◌≤◌, ◌<◌, ◌≡◌, ◌≢◌, refl, sym, ap, Bool, true, false, ◌&&◌, Option, none, some,
  String, find, changed, arith, is_some, Bool-cases, Option-cases, inl, inr, if◌then◌else◌, ◌⊎◌,
}
use crm_nusrv.Store.{Db}
use crm_nusrv.Store.Enums.{OutboxStatus, is_processing}
use crm_nusrv.Store.Rows.{Outbox}
use crm_nusrv.Mail.Lease.{held, is_reading}
use crm_nusrv.Mail.Outbound.Guarded
use crm_nusrv.Mail.Lease.Knowledge.{
  Owns, IsCopy, IsAddressed, Knows, IsSound, IsPinned, Turn, claims, reads, leaves, writes, TurnOf,
  owned-Owns, load_context-row, IsCopy-of_eq, Keeps, guard-turn, quiet-turn,
}

module _ (node_env : Option String) (id : ℕ) (i : Input) (db : Db) (r : Outbox)
    (stored : find id db.outbox ≡ some r) (sound : IsSound r) where
  pub step-TurnOf : (p : Pc) → Knows r p → TurnOf id i.clock r p (step node_env id i p db)
  unfolding step
  step-TurnOf start k = turn-start node_env id i db r stored sound
  step-TurnOf (reading now) k = turn-reading node_env id i db r stored sound now
  step-TurnOf (loading token now) k = turn-loading node_env id i db r stored sound token now
  step-TurnOf (checking job) k = turn-checking node_env id i db r stored sound job k
  step-TurnOf (resolving token for_good reason) k =
      turn-resolving node_env id i db r stored sound token for_good reason
  step-TurnOf (rebinding job e) k = turn-rebinding node_env id i db r stored sound job e k
  step-TurnOf (materializing job box recipient) k =
      turn-materializing node_env id i db r stored sound job box recipient k
  step-TurnOf (reloading job m recipient) k =
      turn-reloading node_env id i db r stored sound job m recipient k
  step-TurnOf (rechecking job m recipient latest) k =
      turn-rechecking node_env id i db r stored sound job m recipient latest k
  step-TurnOf (rebinding_again job m latest e) k =
      turn-rebinding_again node_env id i db r stored sound job m latest e k
  step-TurnOf (marking job m recipient) k =
      turn-marking node_env id i db r stored sound job m recipient k
  step-TurnOf (sending job m recipient) k =
      turn-sending node_env id i db r stored sound job m recipient
  step-TurnOf (recording job m error) k = turn-recording node_env id i db r stored sound job m error
  step-TurnOf (done outcome) k =
      quiet-turn id i.clock r (done outcome) (step node_env id i (done outcome) db) stored
        (inl refl) refl tt
  step-TurnOf thrown k =
      quiet-turn id i.clock r thrown (step node_env id i thrown db) stored (inl refl) refl tt
