-- ===== src/Mail/Lease/Turns/Materializing.antt =====
-- The access that makes the message of the row, or finds it.
use crm_nusrv.Mail.Configuration.{Mailbox}
use crm_nusrv.Mail.Outbound.Materialize.{
  MaterializeResult, materialized, ownership_lost, generate_stable_message_id, materialize, linked,
  Materialized,
}
use crm_nusrv.Base.{
  ◌∙◌, ℕ, ◌≡◌, refl, true, false, Option, none, some, String, find, changed, arith, is_some,
  Bool-cases, Option-cases, inl, inr, ◌⊎◌,
}
use crm_nusrv.Store.{Db}
use crm_nusrv.Store.Rows.{Outbox}
use crm_nusrv.Mail.Outbound.Worker.{
  Job, materializing, reloading, Input, step, or_conflict, after_materialize,
}
use crm_nusrv.Mail.Lease.{held, is_reading}
use crm_nusrv.Mail.Outbound.Writes.{owned}
use crm_nusrv.Mail.Outbound.Guarded
use crm_nusrv.Mail.Lease.Knowledge.{
  Owns, IsAddressed, Knows, IsSound, TurnOf, owned-Owns, Keeps, guard-turn, quiet-turn,
}

module _ (node_env : Option String) (id : ℕ) (i : Input) (db : Db) (r : Outbox)
    (stored : find id db.outbox ≡ some r) (sound : IsSound r) where
  -- The message that a worker goes on with, and what it knows of it.
  after_materialize-Learns :
      (job : Job) (box : Mailbox) (recipient : String) (k : ℕ) (res : MaterializeResult)
      → job.context.row.email_message_id ≡ some k
      → (materialize id job.context.row box recipient job.now job.token i.fresh db).1 ≡ res
      → Knows r (materializing job box recipient)
      → ((held (after_materialize job recipient res) ≡ none)
          ⊎ (held (after_materialize job recipient res) ≡ some job.token))
        × (is_reading (after_materialize job recipient res) ≡ false)
        × Knows r (after_materialize job recipient res)
  after_materialize-Learns job box recipient k ownership_lost e q known = (inl refl, refl, tt)
  after_materialize-Learns job box recipient k MaterializeResult.thrown e q known =
      (inl refl, refl, tt)
  after_materialize-Learns job box recipient k (materialized m) e q known =
      (inr refl, refl, addressed)
    where
      addressed : Owns r job.token → IsAddressed r m recipient
      addressed o =
          let (to, message, header) = known o in
          let there : is_some r.email_message_id ≡ true = rw (← message, e) refl in
          elim (Option-cases r.message_id_header) [
            | inl gone ↦ absurd (ground (arith, sound.together))
            | inr (h, has) ↦ record {
              to = to;
              header = ground (
                arith,
                Guarded.materialize_reused id db r stored job.context.row box recipient job.now
                    job.token i.fresh k h {m = m} e (header ∙ has) q,
              );
              message = there;
            }
          ]

  pub turn-materializing :
      (job : Job) (box : Mailbox) (recipient : String)
      → Knows r (materializing job box recipient)
      → TurnOf id i.clock r
          (materializing job box recipient)
          (step node_env id i (materializing job box recipient) db)
  unfolding step
  turn-materializing job box recipient known =
      elim (Option-cases job.context.row.email_message_id) [
        | inr (k, e) ↦
            let (h, n, l) =
              after_materialize-Learns job box recipient k
                (materialize id job.context.row box recipient job.now job.token i.fresh db).1 e refl
                known in
            quiet-turn id i.clock r (materializing job box recipient)
              (step node_env id i (materializing job box recipient) db) (kept k e) h n l
        | inl e ↦
            guard-turn id i.clock job.token r (materializing job box recipient)
              (reloading job new recipient) (owned job.token) (linked i.fresh.message_id header)
              (step node_env id i (materializing job box recipient) db) refl (keeps e) (made e)
              (goes e)
      ]
    where
      header : String
      header = generate_stable_message_id i.fresh.uuid box.1.from_address

      new : Materialized
      new = record { mailbox = box; message_id_header = header }

      kept :
          (k : ℕ)
          → job.context.row.email_message_id ≡ some k
          → find id
              (materialize id job.context.row box recipient job.now job.token i.fresh db).0.outbox
            ≡ some r
      kept k e = ground (
        arith,
        Guarded.row-materialize id db r stored job.context.row box recipient job.now job.token
            i.fresh,
      )

      made :
          job.context.row.email_message_id ≡ none
          → find id
              (materialize id job.context.row box recipient job.now job.token i.fresh db).0.outbox
            ≡ some (changed (owned job.token) (linked i.fresh.message_id header) r)
      made e = ground (
        arith,
        Guarded.row-materialize id db r stored job.context.row box recipient job.now job.token
            i.fresh,
      )

      goes :
          job.context.row.email_message_id ≡ none
          → after_materialize job recipient
              (materialize id job.context.row box recipient job.now job.token i.fresh db).1
            ≡ or_conflict (reloading job new recipient) (owned job.token r)
      goes e = elim (Bool-cases (owned job.token r)) [
        | inl hit ↦ ground (
          arith,
          Guarded.materialize-made id db r stored job.context.row box recipient job.now job.token
              i.fresh e,
        )
        | inr miss ↦ ground (
          arith,
          Guarded.materialize-made id db r stored job.context.row box recipient job.now job.token
              i.fresh e,
        )
      ]

      keeps :
          job.context.row.email_message_id ≡ none
          → owned job.token r ≡ true
          → Keeps job.token r (linked i.fresh.message_id header r) (reloading job new recipient)
      keeps e g =
          let (owns, processing) = owned-Owns job.token r g in
          let (to, message, _) = known owns in
          let unsent = sound.unsent (rw (← message, e) refl) in
          record {
            owner = g;
            lease = refl;
            goes_on = inr (refl, processing);
            no_read = refl;
            pinned = λ h. absurd (omega arith);
            sound = record { together = refl; unsent = λ x. cc };
            knows = λ o. record { to = to; header = refl; message = refl };
          }
