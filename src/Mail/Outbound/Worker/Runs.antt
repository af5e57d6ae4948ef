-- ===== src/Mail/Outbound/Worker/Runs.antt =====
-- One worker alone: its work on a row ends, and its outcome tells whether a message was sent.
use crm_nusrv.Base.{
  ℕ, ◌+◌, ◌-◌, ◌≤◌, ◌≡◌, refl, Bool, true, false, Option, none, some, String, List, [], ◌∷◌, ◌++◌,
  length, length-append, arith, Bool-cases, inl, inr,
}
use crm_nusrv.Store.{Db}
use crm_nusrv.Mail.Outbound.{
  claim, read_token, Context, load_context, EligibilityResult, eligible, defer, cancel,
  evaluate_eligibility,
}
use crm_nusrv.Mail.Outbound.Writes.{
  defer_to_queued, cancel_row, rebind_recipient_and_message, mark_attempt,
}
use crm_nusrv.Mail.Outbound.Materialize.{
  Materialized, MaterializeResult, materialized, ownership_lost, materialize,
}
use crm_nusrv.Mail.Outbound.Recording.{
  Recorded, recorded, lost, threw, record_success, record_failure,
}
use crm_nusrv.Mail.Outbound.Worker.{
  Outcome, sent, deferred, cancelled, failed, ownership_lost_after_send, Job, Pc, start, reading,
  loading, checking, resolving, rebinding, materializing, reloading, rechecking, rebinding_again,
  marking, sending, recording, done, thrown, Input, After, goes, after_claim, after_read,
  after_load, after_check, after_recheck, after_reload, after_materialize, after_record,
  or_conflict, setting, step, run,
}

-- The accesses that are left at most.
abbrev pub left : Pc → ℕ
left start = 12
left (reading now) = 11
left (loading token now) = 10
left (checking job) = 9
left (rebinding job e) = 8
left (materializing job box recipient) = 7
left (reloading job m recipient) = 6
left (rechecking job m recipient latest) = 5
left (rebinding_again job m latest e) = 4
left (marking job m recipient) = 3
left (sending job m recipient) = 2
left (recording job m error) = 1
left (resolving token for_good reason) = 1
left (done outcome) = 0
left thrown = 0

-- What the place of a worker tells of the number of messages that it sent.
abbrev pub Told : Pc → ℕ → Type 0
Told (recording job m error) n = n ≡ 1
Told (done sent) n = n ≡ 1
Told (done failed) n = n ≡ 1
Told (done ownership_lost_after_send) n = n ≡ 1
Told thrown n = n ≤ 1
Told _ n = n ≡ 0

-- A place that an access may lead to, with what it has sent by then.
abbrev Fits : ℕ → ℕ → Pc → Type 0
Fits n most p = Told p n × (left p ≤ most)

claim-Fits : (now : ℕ) (b : Bool) → Fits 0 11 (after_claim now b)
claim-Fits now true = (refl, omega arith)
claim-Fits now false = (refl, omega arith)

read-Fits : (now : ℕ) (t : Option ℕ) → Fits 0 10 (after_read now t)
read-Fits now none = (omega arith, omega arith)
read-Fits now (some t) = (refl, omega arith)

load-Fits : (token now : ℕ) (c : Option Context) → Fits 0 9 (after_load token now c)
load-Fits token now none = (omega arith, omega arith)
load-Fits token now (some c) = (refl, omega arith)

check-Fits : (job : Job) (res : EligibilityResult) → Fits 0 8 (after_check job res)
check-Fits job (defer reason) = (refl, omega arith)
check-Fits job (cancel reason) = (refl, omega arith)
check-Fits job (eligible e) = elim (Bool-cases e.recipient_changed) [
  | inl h ↦ rw h (refl, omega arith)
  | inr h ↦ rw h (refl, omega arith)
]

reload-Fits :
    (job : Job) (m : Materialized) (recipient : String) (c : Option Context)
    → Fits 0 5 (after_reload job m recipient c)
reload-Fits job m recipient none = (omega arith, omega arith)
reload-Fits job m recipient (some c) = (refl, omega arith)

recheck-Fits :
    (job : Job) (m : Materialized) (recipient : String) (latest : Context) (res : EligibilityResult)
    → Fits 0 4 (after_recheck job m recipient latest res)
recheck-Fits job m recipient latest (defer reason) = (refl, omega arith)
recheck-Fits job m recipient latest (cancel reason) = (refl, omega arith)
recheck-Fits job m recipient latest (eligible e) = elim (Bool-cases e.recipient_changed) [
  | inl h ↦ rw h (refl, omega arith)
  | inr h ↦ rw h (refl, omega arith)
]

materialize-Fits :
    (job : Job) (recipient : String) (res : MaterializeResult)
    → Fits 0 6 (after_materialize job recipient res)
materialize-Fits job recipient (materialized m) = (refl, omega arith)
materialize-Fits job recipient ownership_lost = (refl, omega arith)
materialize-Fits job recipient MaterializeResult.thrown = (omega arith, omega arith)

guard-Fits : (most : ℕ) (p : Pc) (b : Bool) → Fits 0 most p → Fits 0 most (or_conflict p b)
guard-Fits most p true fits = fits
guard-Fits most p false fits = (refl, omega arith)

success-Fits : (res : Recorded) → Fits 1 0 (after_record sent res)
success-Fits recorded = (refl, omega arith)
success-Fits lost = (refl, omega arith)
success-Fits threw = (omega arith, omega arith)

failure-Fits : (res : Recorded) → Fits 1 0 (after_record failed res)
failure-Fits recorded = (refl, omega arith)
failure-Fits lost = (refl, omega arith)
failure-Fits threw = (omega arith, omega arith)

-- Where nothing has been sent before.
unsent-Fits : (n k most : ℕ) (p : Pc) → n ≡ 0 → Fits k most p → Fits (n + k) most p
unsent-Fits n k most p e fits = let z : 0 + k ≡ k = omega arith in rw (e, z) fits

sent-Fits : (n : ℕ) (p : Pc) → n ≡ 1 → Fits 1 0 p → Fits (n + 0) 0 p
sent-Fits n p e fits = rw e fits

over-Fits : (n : ℕ) (p : Pc) → Told p n → left p ≤ 0 → Fits (n + 0) (left p - 1) p
over-Fits n p told over = let z : n + 0 ≡ n = omega arith in (rw z told, omega arith)

done-Fits : (o : Outcome) → Told (done o) 0 → Fits 0 0 (done o)
done-Fits o told = (told, omega arith)

module _ (node_env : Option String) (id : ℕ) where
  -- Where an access leads to, unless the work is over.
  step-Fits :
      (i : Input) (p : Pc) (db : Db) (n : ℕ)
      → Told p n
      → Fits
          (n + length (step node_env id i p db).transmitted)
          (left p - 1)
          (step node_env id i p db).pc
  unfolding step
  step-Fits i start db n e = unsent-Fits n 0 11 _ e (claim-Fits i.clock (claim id i.clock db).1)
  step-Fits i (reading now) db n e = unsent-Fits n 0 10 _ e (read-Fits now (read_token id db))
  step-Fits i (loading token now) db n e =
      unsent-Fits n 0 9 _ e (load-Fits token now (load_context id db))
  step-Fits i (checking job) db n e =
      unsent-Fits n 0 8 _ e
        (check-Fits job (evaluate_eligibility (setting node_env id i) job.context job.now db))
  step-Fits i (resolving token false reason) db n e = unsent-Fits n 0 0 _ e (
      guard-Fits 0 (done deferred) (defer_to_queued id reason token db).1 (done-Fits deferred refl))
  step-Fits i (resolving token true reason) db n e =
      unsent-Fits n 0 0 _ e
        (guard-Fits 0 (done cancelled) (cancel_row id reason token db).1 (done-Fits cancelled refl))
  step-Fits i (rebinding job e) db n q = unsent-Fits n 0 7 _ q (
      guard-Fits 7 (materializing job e.mailbox e.recipient)
        (rebind_recipient_and_message id job.context.row e.recipient job.token db).1
        (refl, omega arith))
  step-Fits i (materializing job box recipient) db n e = unsent-Fits n 0 6 _ e (
      materialize-Fits job recipient
        (materialize id job.context.row box recipient job.now job.token i.fresh db).1)
  step-Fits i (reloading job m recipient) db n e =
      unsent-Fits n 0 5 _ e (reload-Fits job m recipient (load_context id db))
  step-Fits i (rechecking job m recipient latest) db n e = unsent-Fits n 0 4 _ e (
      recheck-Fits job m recipient latest
        (evaluate_eligibility (setting node_env id i) latest i.clock db))
  step-Fits i (rebinding_again job m latest e) db n q = unsent-Fits n 0 3 _ q (
      guard-Fits 3 (marking job m e.recipient)
        (rebind_recipient_and_message id latest.row e.recipient job.token db).1 (refl, omega arith))
  step-Fits i (marking job m recipient) db n e =
      unsent-Fits n 0 2 _ e (
        guard-Fits 2 (sending job m recipient) (mark_attempt id job.token db).1 (refl, omega arith))
  step-Fits i (sending job m recipient) db n e =
      unsent-Fits n 1 1 (recording job m i.smtp) e (refl, omega arith)
  step-Fits i (recording job m none) db n e =
      sent-Fits n _ e (success-Fits (record_success id m.mailbox.0 job.token db).1)
  step-Fits i (recording job m (some error)) db n e =
      sent-Fits n _ e (failure-Fits (record_failure id m.mailbox.0 error job.token db).1)
  step-Fits i (done outcome) db n e = over-Fits n (done outcome) e (omega arith)
  step-Fits i thrown db n e = over-Fits n thrown e (omega arith)

  run-Told :
      (inputs : List Input) (a : After)
      → Told a.pc (length a.transmitted)
      → left a.pc ≤ length inputs
      → (left (run node_env id inputs a).pc ≡ 0)
        × Told (run node_env id inputs a).pc (length (run node_env id inputs a).transmitted)
  unfolding run step
  run-Told [] a told enough = (omega arith, told)
  run-Told (i ∷ inputs) a told enough =
      let after = step node_env id i a.pc a.db in
      let (told', less) = step-Fits i a.pc a.db (length a.transmitted) told in
      run-Told inputs (record after { transmitted = a.transmitted ++ after.transmitted })
        (rw (length-append a.transmitted after.transmitted) told') (omega arith)

  -- A worker alone has done its work on a row, or thrown, after at most twelve accesses; and then its
  -- outcome tells what it sent: one message if it is `sent`, `failed` or
  -- `ownership_lost_after_send`, none if it is another, and at most one if it threw.
  pub run_ends :
      (inputs : List Input) (db : Db)
      → 12 ≤ length inputs
      → (left (run node_env id inputs (goes db start)).pc ≡ 0)
        × Told
            (run node_env id inputs (goes db start)).pc
            (length (run node_env id inputs (goes db start)).transmitted)
  run_ends inputs db enough = run-Told inputs (goes db start) refl enough
