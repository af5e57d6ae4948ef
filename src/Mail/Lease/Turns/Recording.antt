-- ===== src/Mail/Lease/Turns/Recording.antt =====
-- The accesses that keep the result of a send.
use crm_nusrv.Mail.Sanitize.{sanitize_error}
use crm_nusrv.Mail.SmtpErrors.{SmtpError}
use crm_nusrv.Mail.Outbound.Recording.{
  Recorded, recorded, lost, threw, record_success, record_failure, next_status, is_terminal,
}
use crm_nusrv.Mail.Outbound.Worker.{
  Outcome, sent, failed, after_record, Job, Pc, recording, Input, step, After,
}
use crm_nusrv.Mail.Outbound.Writes.{to_status, owned}
use crm_nusrv.Base.{
  Text, ℕ, ◌≡◌, refl, false, Option, none, some, String, find, changed, arith, Bool-cases, inl, inr,
}
use crm_nusrv.Store.{Db}
use crm_nusrv.Store.Enums.{OutboxStatus}
use crm_nusrv.Store.Rows.{Outbox}
use crm_nusrv.Mail.Outbound.Materialize.{Materialized}
use crm_nusrv.Mail.Lease.{held, is_reading}
use crm_nusrv.Mail.Outbound.Guarded
use crm_nusrv.Mail.Lease.Knowledge.{Knows, IsSound, IsPinned, leaves, writes, TurnOf, owned-Owns}

-- Once the result of a send is kept, the work on the row is over.
after_record-ends :
    (outcome : Outcome) (res : Recorded)
    → (held (after_record outcome res) ≡ none)
      × (is_reading (after_record outcome res) ≡ false)
      × ((r : Outbox) → Knows r (after_record outcome res))
after_record-ends outcome recorded = (refl, refl, λ r. tt)
after_record-ends outcome lost = (refl, refl, λ r. tt)
after_record-ends outcome threw = (refl, refl, λ r. tt)

module _ (node_env : Option String) (id : ℕ) (i : Input) (db : Db) (r : Outbox)
    (stored : find id db.outbox ≡ some r) (sound : IsSound r) where
  recorded-turn :
      (clock t : ℕ) (p : Pc) (a : After) (outcome : Outcome) (res : Recorded)
      (status : OutboxStatus) (error : Option Text)
      → held p ≡ some t
      → find id a.db.outbox ≡ some (changed (owned t) (to_status status error) r)
      → a.pc ≡ after_record outcome res
      → TurnOf id clock r p a
  recorded-turn clock t p a outcome res status error h e at =
      let (h', n, k) = after_record-ends outcome res in
      elim (Bool-cases (owned t r)) [
        | inl hit ↦
            let (owns, processing) = owned-Owns t r hit in
            (
              to_status status error r,
              ground arith,
              rw at (
                  writes t h owns processing refl (inl h') n (λ _. pinned)
                    (record { together = sound.together; unsent = sound.unsent })
                    (k (to_status status error r))),
            )
        | inr miss ↦ (r, ground arith, rw at (leaves refl (inl h') n (k r)))
      ]
    where
      pinned : IsPinned r (to_status status error r)
      pinned = record { recipient = refl; header = refl; message = refl; counted = omega arith }

  pub turn-recording :
      (job : Job) (m : Materialized) (error : Option SmtpError)
      → TurnOf id i.clock r (recording job m error) (step node_env id i (recording job m error) db)
  unfolding step
  turn-recording job m none =
      recorded-turn i.clock job.token (recording job m none)
        (step node_env id i (recording job m none) db) sent
        (record_success id m.mailbox.0 job.token db).1 OutboxStatus.delivered none refl
        (Guarded.row-record_success id db r stored m.mailbox.0 job.token) refl
  turn-recording job m (some error) =
      recorded-turn i.clock job.token (recording job m (some error))
        (step node_env id i (recording job m (some error)) db) failed
        (record_failure id m.mailbox.0 error job.token db).1
        (next_status (is_terminal error r.attempts)) (some (sanitize_error error.message)) refl
        (Guarded.row-record_failure id db r stored m.mailbox.0 job.token error) refl
