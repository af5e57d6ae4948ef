-- ===== src/Mail/Lease/Turns/Checks.antt =====
-- The accesses that only read, and the claim.
use crm_nusrv.Mail.Outbound.Worker.{
  setting, Job, Pc, start, reading, loading, checking, reloading, rechecking, Input, step,
  after_check, after_recheck,
}
use crm_nusrv.Mail.Outbound.Eligibility.{evaluate_eligibility_unchanged}
use crm_nusrv.Mail.Outbound.{
  EligibilityResult, eligible, defer, cancel, evaluate_eligibility, Context, load_context, claim,
  read_token, claimable, claimed_by,
}
use crm_nusrv.Base.{
  ◌∙◌, ℕ, ◌≡◌, refl, sym, false, Option, none, some, String, find, changed, arith, Bool-cases,
  Option-cases, inl, inr,
}
use crm_nusrv.Store.{Db}
use crm_nusrv.Store.Rows.{Outbox}
use crm_nusrv.Mail.Outbound.Materialize.{Materialized}
use crm_nusrv.Mail.Lease.{held, is_reading}
use crm_nusrv.Mail.Outbound.Guarded
use crm_nusrv.Mail.Lease.Knowledge.{
  Knows, IsSound, claims, reads, TurnOf, load_context-row, IsCopy-of_eq, quiet-turn,
}

module _ (node_env : Option String) (id : ℕ) (i : Input) (db : Db) (r : Outbox)
    (stored : find id db.outbox ≡ some r) (sound : IsSound r) where
  pub turn-start : TurnOf id i.clock r start (step node_env id i start db)
  unfolding step
  turn-start = elim (Bool-cases (claimable i.clock r)) [
    | inl free ↦
        (claimed_by i.clock r, ground (arith, row), claims refl free refl (ground (arith, row)))
    | inr taken ↦
        let at : (claim id i.clock db).1 ≡ false = ground (arith, row) in
        quiet-turn id i.clock r start (step node_env id i start db) (ground (arith, row))
          (inl (rw at refl)) (rw at refl) (rw at tt)
  ]
    where
      row :
          (find id (claim id i.clock db).0.outbox
            ≡ some (changed (claimable i.clock) (claimed_by i.clock) r))
          × ((claim id i.clock db).1 ≡ claimable i.clock r)
      row = Guarded.row-claim id db r stored i.clock

  pub turn-reading :
      (now : ℕ) → TurnOf id i.clock r (reading now) (step node_env id i (reading now) db)
  unfolding step
  turn-reading now = elim (Option-cases r.last_attempt_at) [
    | inl gone ↦
        let at : read_token id db ≡ none = ground (arith, Guarded.row-read_token id db r stored) in
        quiet-turn id i.clock r (reading now) (step node_env id i (reading now) db) stored
          (inl (rw at refl)) (rw at refl) (rw at tt)
    | inr (t, owns) ↦
        let at : read_token id db ≡ some t =
          ground (arith, Guarded.row-read_token id db r stored) in
        (r, stored, reads now t refl refl owns (rw at refl))
  ]

  pub turn-loading :
      (token now : ℕ)
      → TurnOf id i.clock r (loading token now) (step node_env id i (loading token now) db)
  unfolding step
  turn-loading token now = elim (Option-cases (load_context id db)) [
    | inl gone ↦
        quiet-turn id i.clock r (loading token now) (step node_env id i (loading token now) db)
          stored (inl (rw gone refl)) (rw gone refl) (rw gone tt)
    | inr (c, found) ↦
        quiet-turn id i.clock r (loading token now) (step node_env id i (loading token now) db)
          stored (inr (rw found refl)) (rw found refl)
          (rw found (λ _. IsCopy-of_eq (load_context-row id db r c stored found)))
  ]

  -- What a check leaves the worker with.
  Learns : Pc → ℕ → Type 0
  Learns p token = (held p ≡ some token) × (is_reading p ≡ false) × Knows r p

  after_check-Learns :
      (job : Job) (res : EligibilityResult)
      → evaluate_eligibility (setting node_env id i) job.context job.now db ≡ res
      → Knows r (checking job)
      → Learns (after_check job res) job.token
  unfolding Learns
  after_check-Learns job (defer reason) e k = (refl, refl, tt)
  after_check-Learns job (cancel reason) e k = (refl, refl, tt)
  after_check-Learns job (eligible v) e k = elim (Bool-cases v.recipient_changed) [
    | inl moved ↦ rw moved (refl, refl, k)
    | inr same ↦ rw same (
      refl,
      refl,
      λ o. (
        (sym (k o).recipient)
            ∙ sym (
                evaluate_eligibility_unchanged (setting node_env id i) job.context job.now db v e
                  same),
        (k o).message,
        (k o).header,
      ),
    )
  ]

  pub turn-checking :
      (job : Job)
      → Knows r (checking job)
      → TurnOf id i.clock r (checking job) (step node_env id i (checking job) db)
  unfolding step Learns
  turn-checking job k =
      let (h, n, l) =
        after_check-Learns job (evaluate_eligibility (setting node_env id i) job.context job.now db)
          refl k in
      quiet-turn id i.clock r (checking job) (step node_env id i (checking job) db) stored (inr h) n
        l

  after_recheck-Learns :
      (job : Job) (m : Materialized) (recipient : String) (latest : Context)
      (res : EligibilityResult)
      → Knows r (rechecking job m recipient latest)
      → Learns (after_recheck job m recipient latest res) job.token
  unfolding Learns
  after_recheck-Learns job m recipient latest (defer reason) k = (refl, refl, tt)
  after_recheck-Learns job m recipient latest (cancel reason) k = (refl, refl, tt)
  after_recheck-Learns job m recipient latest (eligible v) k =
      elim (Bool-cases v.recipient_changed) [
        | inl moved ↦ rw moved (refl, refl, λ o. ((k o).0.header, (k o).0.message))
        | inr same ↦ rw same (refl, refl, λ o. (k o).0)
      ]

  pub turn-rechecking :
      (job : Job) (m : Materialized) (recipient : String) (latest : Context)
      → Knows r (rechecking job m recipient latest)
      → TurnOf id i.clock r
          (rechecking job m recipient latest)
          (step node_env id i (rechecking job m recipient latest) db)
  unfolding step Learns
  turn-rechecking job m recipient latest k =
      let (h, n, l) =
        after_recheck-Learns job m recipient latest
          (evaluate_eligibility (setting node_env id i) latest i.clock db) k in
      quiet-turn id i.clock r (rechecking job m recipient latest)
        (step node_env id i (rechecking job m recipient latest) db) stored (inr h) n l

  pub turn-reloading :
      (job : Job) (m : Materialized) (recipient : String)
      → Knows r (reloading job m recipient)
      → TurnOf id i.clock r
          (reloading job m recipient)
          (step node_env id i (reloading job m recipient) db)
  unfolding step
  turn-reloading job m recipient k = elim (Option-cases (load_context id db)) [
    | inl gone ↦
        quiet-turn id i.clock r (reloading job m recipient)
          (step node_env id i (reloading job m recipient) db) stored (inl (rw gone refl))
          (rw gone refl) (rw gone tt)
    | inr (c, found) ↦
        quiet-turn id i.clock r (reloading job m recipient)
          (step node_env id i (reloading job m recipient) db) stored (inr (rw found refl))
          (rw found refl)
          (rw found (λ o. (k o, IsCopy-of_eq (load_context-row id db r c stored found))))
  ]
