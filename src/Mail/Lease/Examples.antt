-- ===== src/Mail/Lease/Examples.antt =====
-- Two workers at the queued row of the small database: the first one claims it.
use crm_nusrv.Base.{
  Bool-cases, inl, inr, ◌==◌, ℕ, ◌≡◌, ◌≤◌, ◌<◌, ◌+◌, refl, true, false, none, some, [], ◌∷◌, find,
  List, length, All, arith, Option, String,
}
use crm_nusrv.Store.Rows.{Outbox}
use crm_nusrv.Store.Samples.{sample_db, sample_row}
use crm_nusrv.Mail.Outbound.{claimed_by, claimable}
use crm_nusrv.Mail.Outbound.Materialize.{Fresh}
use crm_nusrv.Mail.Outbound.Worker.{Pc, start, reading, loading, done, goes, run, Input, sent, step}
use crm_nusrv.Mail.Outbound.Worker.Runs.{left, Told, run_ends}
use crm_nusrv.Mail.Lease.{System, acted, Reach, here, next, act, wait, is_reading, held}
use crm_nusrv.Mail.Lease.Locals.{IsOurs}
use crm_nusrv.Mail.Lease.Invariant.{IsFresh}
use crm_nusrv.Mail.Lease.Safety.{
  HasLease, lease_exclusive, stale_harmless, sent_once_addressed, lease_guards,
}

abbrev idle : System
idle = record { db = sample_db; pc = λ _. start; clock = 1000; sent = [] }

idle-IsFresh : IsFresh 1 idle sample_row
idle-IsFresh = record {
  stored = refl;
  past = omega arith;
  idle = λ i. refl;
  sound = record { together = refl; unsent = λ _. refl };
  unsent = refl;
}

abbrev ids : Fresh
ids = record { thread_id = 5; message_id = 6; uuid = "3f2a" }

abbrev input : Input
input = record { clock = 1000; fresh = ids; smtp = none }

abbrev inputs : List Input
inputs =
    input ∷ input ∷ input ∷ input ∷ input ∷ input ∷ input ∷ input ∷ input ∷ input ∷ input ∷ input
    ∷ []

run_ends_example :
    (left (run none 1 inputs (goes sample_db start)).pc ≡ 0)
    × Told
        (run none 1 inputs (goes sample_db start)).pc
        (length (run none 1 inputs (goes sample_db start)).transmitted)
run_ends_example = run_ends none 1 inputs sample_db (omega arith)

-- The reminder of the small database is sent.
delivery : (run none 1 inputs (goes sample_db start)).pc ≡ done sent
unfolding run crm_nusrv.Mail.Outbound.claim claimable crm_nusrv.Mail.Outbound.read_token
    crm_nusrv.Base.update_many crm_nusrv.Mail.Outbound.load_context
    crm_nusrv.Mail.Outbound.evaluate_eligibility
    crm_nusrv.Mail.Outbound.resolve_mail_configuration_for_row
    crm_nusrv.Mail.Configuration.resolve_for_outbound crm_nusrv.Mail.Configuration.is_override
    crm_nusrv.Mail.Configuration.apply_outbound_guards
    crm_nusrv.Mail.Configuration.is_environment_allowed crm_nusrv.Mail.Configuration.reached
    crm_nusrv.Renewal.Policy.is_reminder_eligible crm_nusrv.Renewal.Policy.aggregate_effective_holds
    crm_nusrv.Renewal.Policy.active_holds crm_nusrv.Renewal.Policy.is_effective_hold
    crm_nusrv.Mail.Configuration.resolve_pinned
    crm_nusrv.Mail.Outbound.Materialize.generate_stable_message_id
    crm_nusrv.Mail.Outbound.Materialize.materialize
    crm_nusrv.Mail.Outbound.Materialize.materialize_new crm_nusrv.Mail.Threads.resolve_or_create
    crm_nusrv.Mail.Outbound.Recording.record_health crm_nusrv.Mail.Outbound.Recording.record_success
    crm_nusrv.Mail.Outbound.Writes.mark_attempt crm_nusrv.Mail.Outbound.check_recipient
    crm_nusrv.Mail.Outbound.evaluate_customer crm_nusrv.Mail.Recipient.resolve_primary_recipient
delivery = refl

abbrev claimed : System
claimed = acted none 1 idle 0 ids none

claimed-Reach : Reach none 1 idle claimed
claimed-Reach = next here (act 0 ids none (λ _ j. refl))

abbrev claimed_row : Outbox
claimed_row = claimed_by 1000 sample_row

holds_lease : HasLease 1 claimed 0
unfolding crm_nusrv.Mail.Outbound.Worker.step crm_nusrv.Mail.Outbound.claim
    crm_nusrv.Base.update_many claimable
holds_lease = (claimed_row, 1000, refl, refl, refl)

lease_exclusive_example : ◌≡◌ {A = ℕ} 0 0
lease_exclusive_example =
    lease_exclusive none 1 idle claimed sample_row idle-IsFresh claimed-Reach 0 0 holds_lease
      holds_lease

lease_guards_example : claimable 1000 claimed_row ≡ false
unfolding step crm_nusrv.Mail.Outbound.claim crm_nusrv.Base.update_many claimable
lease_guards_example =
    lease_guards none 1 idle claimed sample_row idle-IsFresh claimed-Reach 0 1000 claimed_row refl
      refl refl (omega arith)

abbrev after_2 : System
after_2 = acted none 1 claimed 0 ids none

abbrev after_3 : System
after_3 = acted none 1 after_2 0 ids none

abbrev after_4 : System
after_4 = acted none 1 after_3 0 ids none

abbrev after_5 : System
after_5 = acted none 1 after_4 0 ids none

abbrev after_6 : System
after_6 = acted none 1 after_5 0 ids none

abbrev after_7 : System
after_7 = acted none 1 after_6 0 ids none

abbrev after_8 : System
after_8 = acted none 1 after_7 0 ids none

abbrev after_9 : System
after_9 = acted none 1 after_8 0 ids none

-- The worker is about to count its attempt.
after_7-Reach : Reach none 1 idle after_7
unfolding step crm_nusrv.Mail.Outbound.claim claimable crm_nusrv.Mail.Outbound.read_token
    crm_nusrv.Base.update_many crm_nusrv.Mail.Outbound.load_context
    crm_nusrv.Mail.Outbound.evaluate_eligibility
    crm_nusrv.Mail.Outbound.resolve_mail_configuration_for_row
    crm_nusrv.Mail.Configuration.resolve_for_outbound crm_nusrv.Mail.Configuration.is_override
    crm_nusrv.Mail.Configuration.apply_outbound_guards
    crm_nusrv.Mail.Configuration.is_environment_allowed crm_nusrv.Mail.Configuration.reached
    crm_nusrv.Renewal.Policy.is_reminder_eligible crm_nusrv.Renewal.Policy.aggregate_effective_holds
    crm_nusrv.Renewal.Policy.active_holds crm_nusrv.Renewal.Policy.is_effective_hold
    crm_nusrv.Mail.Configuration.resolve_pinned
    crm_nusrv.Mail.Outbound.Materialize.generate_stable_message_id
    crm_nusrv.Mail.Outbound.Materialize.materialize
    crm_nusrv.Mail.Outbound.Materialize.materialize_new crm_nusrv.Mail.Threads.resolve_or_create
    crm_nusrv.Mail.Outbound.Recording.record_health crm_nusrv.Mail.Outbound.Recording.record_success
    crm_nusrv.Mail.Outbound.Writes.mark_attempt crm_nusrv.Mail.Outbound.check_recipient
    crm_nusrv.Mail.Outbound.evaluate_customer crm_nusrv.Mail.Recipient.resolve_primary_recipient
after_7-Reach =
    next
      (next
        (next
          (next (next (next claimed-Reach (act 0 ids none (λ h. cc))) (act 0 ids none (λ h. cc)))
            (act 0 ids none (λ h. cc)))
          (act 0 ids none (λ h. cc)))
        (act 0 ids none (λ h. cc)))
      (act 0 ids none (λ h. cc))

after_9-Reach : Reach none 1 idle after_9
unfolding step crm_nusrv.Mail.Outbound.claim claimable crm_nusrv.Mail.Outbound.read_token
    crm_nusrv.Base.update_many crm_nusrv.Mail.Outbound.load_context
    crm_nusrv.Mail.Outbound.evaluate_eligibility
    crm_nusrv.Mail.Outbound.resolve_mail_configuration_for_row
    crm_nusrv.Mail.Configuration.resolve_for_outbound crm_nusrv.Mail.Configuration.is_override
    crm_nusrv.Mail.Configuration.apply_outbound_guards
    crm_nusrv.Mail.Configuration.is_environment_allowed crm_nusrv.Mail.Configuration.reached
    crm_nusrv.Renewal.Policy.is_reminder_eligible crm_nusrv.Renewal.Policy.aggregate_effective_holds
    crm_nusrv.Renewal.Policy.active_holds crm_nusrv.Renewal.Policy.is_effective_hold
    crm_nusrv.Mail.Configuration.resolve_pinned
    crm_nusrv.Mail.Outbound.Materialize.generate_stable_message_id
    crm_nusrv.Mail.Outbound.Materialize.materialize
    crm_nusrv.Mail.Outbound.Materialize.materialize_new crm_nusrv.Mail.Threads.resolve_or_create
    crm_nusrv.Mail.Outbound.Recording.record_health crm_nusrv.Mail.Outbound.Recording.record_success
    crm_nusrv.Mail.Outbound.Writes.mark_attempt crm_nusrv.Mail.Outbound.check_recipient
    crm_nusrv.Mail.Outbound.evaluate_customer crm_nusrv.Mail.Recipient.resolve_primary_recipient
after_9-Reach = next (next after_7-Reach (act 0 ids none (λ h. cc))) (act 0 ids none (λ h. cc))

-- The row once its message has been handed over.
abbrev sent_row : Outbox
sent_row = record claimed_row {
  attempts = 1;
  email_message_id = some 6;
  message_id_header = some "<3f2a@nusrv.sa>";
}

sent_once_addressed_example : All (IsOurs sent_row) after_9.sent
unfolding step crm_nusrv.Mail.Outbound.claim claimable crm_nusrv.Mail.Outbound.read_token
    crm_nusrv.Base.update_many crm_nusrv.Mail.Outbound.load_context
    crm_nusrv.Mail.Outbound.evaluate_eligibility
    crm_nusrv.Mail.Outbound.resolve_mail_configuration_for_row
    crm_nusrv.Mail.Configuration.resolve_for_outbound crm_nusrv.Mail.Configuration.is_override
    crm_nusrv.Mail.Configuration.apply_outbound_guards
    crm_nusrv.Mail.Configuration.is_environment_allowed crm_nusrv.Mail.Configuration.reached
    crm_nusrv.Renewal.Policy.is_reminder_eligible crm_nusrv.Renewal.Policy.aggregate_effective_holds
    crm_nusrv.Renewal.Policy.active_holds crm_nusrv.Renewal.Policy.is_effective_hold
    crm_nusrv.Mail.Configuration.resolve_pinned
    crm_nusrv.Mail.Outbound.Materialize.generate_stable_message_id
    crm_nusrv.Mail.Outbound.Materialize.materialize
    crm_nusrv.Mail.Outbound.Materialize.materialize_new crm_nusrv.Mail.Threads.resolve_or_create
    crm_nusrv.Mail.Outbound.Recording.record_health crm_nusrv.Mail.Outbound.Recording.record_success
    crm_nusrv.Mail.Outbound.Writes.mark_attempt crm_nusrv.Mail.Outbound.check_recipient
    crm_nusrv.Mail.Outbound.evaluate_customer crm_nusrv.Mail.Recipient.resolve_primary_recipient
sent_once_addressed_example =
    sent_once_addressed none 1 idle after_9 sample_row idle-IsFresh after_9-Reach sent_row refl

-- The first worker stalls for ten minutes before it counts its attempt, and a second one claims the
-- row.
abbrev late : System
late = record after_7 { clock = 700000 }

abbrev taken : System
taken = acted none 1 late 1 ids none

abbrev taken_row : Outbox
taken_row = record claimed_row {
  last_attempt_at = some 700000;
  email_message_id = some 6;
  message_id_header = some "<3f2a@nusrv.sa>";
}

nobody_reads : (j : ℕ) → is_reading (after_7.pc j) ≡ false
unfolding step crm_nusrv.Mail.Outbound.claim claimable crm_nusrv.Mail.Outbound.read_token
    crm_nusrv.Base.update_many crm_nusrv.Mail.Outbound.load_context
    crm_nusrv.Mail.Outbound.evaluate_eligibility
    crm_nusrv.Mail.Outbound.resolve_mail_configuration_for_row
    crm_nusrv.Mail.Configuration.resolve_for_outbound crm_nusrv.Mail.Configuration.is_override
    crm_nusrv.Mail.Configuration.apply_outbound_guards
    crm_nusrv.Mail.Configuration.is_environment_allowed crm_nusrv.Mail.Configuration.reached
    crm_nusrv.Renewal.Policy.is_reminder_eligible crm_nusrv.Renewal.Policy.aggregate_effective_holds
    crm_nusrv.Renewal.Policy.active_holds crm_nusrv.Renewal.Policy.is_effective_hold
    crm_nusrv.Mail.Configuration.resolve_pinned
    crm_nusrv.Mail.Outbound.Materialize.generate_stable_message_id
    crm_nusrv.Mail.Outbound.Materialize.materialize
    crm_nusrv.Mail.Outbound.Materialize.materialize_new crm_nusrv.Mail.Threads.resolve_or_create
    crm_nusrv.Mail.Outbound.Recording.record_health crm_nusrv.Mail.Outbound.Recording.record_success
    crm_nusrv.Mail.Outbound.Writes.mark_attempt crm_nusrv.Mail.Outbound.check_recipient
    crm_nusrv.Mail.Outbound.evaluate_customer crm_nusrv.Mail.Recipient.resolve_primary_recipient
nobody_reads j = elim (Bool-cases (0 == j)) [ inl e ↦ rw e refl | inr e ↦ rw e refl ]

taken-Reach : Reach none 1 idle taken
unfolding step crm_nusrv.Mail.Outbound.claim claimable crm_nusrv.Mail.Outbound.read_token
    crm_nusrv.Base.update_many crm_nusrv.Mail.Outbound.load_context
    crm_nusrv.Mail.Outbound.evaluate_eligibility
    crm_nusrv.Mail.Outbound.resolve_mail_configuration_for_row
    crm_nusrv.Mail.Configuration.resolve_for_outbound crm_nusrv.Mail.Configuration.is_override
    crm_nusrv.Mail.Configuration.apply_outbound_guards
    crm_nusrv.Mail.Configuration.is_environment_allowed crm_nusrv.Mail.Configuration.reached
    crm_nusrv.Renewal.Policy.is_reminder_eligible crm_nusrv.Renewal.Policy.aggregate_effective_holds
    crm_nusrv.Renewal.Policy.active_holds crm_nusrv.Renewal.Policy.is_effective_hold
    crm_nusrv.Mail.Configuration.resolve_pinned
    crm_nusrv.Mail.Outbound.Materialize.generate_stable_message_id
    crm_nusrv.Mail.Outbound.Materialize.materialize
    crm_nusrv.Mail.Outbound.Materialize.materialize_new crm_nusrv.Mail.Threads.resolve_or_create
    crm_nusrv.Mail.Outbound.Recording.record_health crm_nusrv.Mail.Outbound.Recording.record_success
    crm_nusrv.Mail.Outbound.Writes.mark_attempt crm_nusrv.Mail.Outbound.check_recipient
    crm_nusrv.Mail.Outbound.evaluate_customer crm_nusrv.Mail.Recipient.resolve_primary_recipient
taken-Reach =
    next (next after_7-Reach (wait 700000 (omega arith))) (act 1 ids none (λ _. nobody_reads))

stale_harmless_example : find 1 (acted none 1 taken 0 ids none).db.outbox ≡ some taken_row
unfolding step crm_nusrv.Mail.Outbound.claim claimable crm_nusrv.Mail.Outbound.read_token
    crm_nusrv.Base.update_many crm_nusrv.Mail.Outbound.load_context
    crm_nusrv.Mail.Outbound.evaluate_eligibility
    crm_nusrv.Mail.Outbound.resolve_mail_configuration_for_row
    crm_nusrv.Mail.Configuration.resolve_for_outbound crm_nusrv.Mail.Configuration.is_override
    crm_nusrv.Mail.Configuration.apply_outbound_guards
    crm_nusrv.Mail.Configuration.is_environment_allowed crm_nusrv.Mail.Configuration.reached
    crm_nusrv.Renewal.Policy.is_reminder_eligible crm_nusrv.Renewal.Policy.aggregate_effective_holds
    crm_nusrv.Renewal.Policy.active_holds crm_nusrv.Renewal.Policy.is_effective_hold
    crm_nusrv.Mail.Configuration.resolve_pinned
    crm_nusrv.Mail.Outbound.Materialize.generate_stable_message_id
    crm_nusrv.Mail.Outbound.Materialize.materialize
    crm_nusrv.Mail.Outbound.Materialize.materialize_new crm_nusrv.Mail.Threads.resolve_or_create
    crm_nusrv.Mail.Outbound.Recording.record_health crm_nusrv.Mail.Outbound.Recording.record_success
    crm_nusrv.Mail.Outbound.Writes.mark_attempt crm_nusrv.Mail.Outbound.check_recipient
    crm_nusrv.Mail.Outbound.evaluate_customer crm_nusrv.Mail.Recipient.resolve_primary_recipient
stale_harmless_example =
    stale_harmless none 1 idle taken sample_row idle-IsFresh taken-Reach 0 1000 taken_row ids none
      (λ h. cc) refl refl (λ o. ground arith)

-- Why a claim must not fall between another claim and its read: the first worker claims and stalls,
-- the second claims the row ten minutes later, both read the token, and it is the same one.
abbrev stalled : System
stalled = record claimed { clock = 700000 }

abbrev overtaken : System
overtaken = acted none 1 (acted none 1 (acted none 1 stalled 1 ids none) 1 ids none) 0 ids none

shared_token : (held (overtaken.pc 0) ≡ some 700000) × (held (overtaken.pc 1) ≡ some 700000)
unfolding step crm_nusrv.Mail.Outbound.claim claimable crm_nusrv.Mail.Outbound.read_token
    crm_nusrv.Base.update_many
shared_token = (refl, refl)
