-- ===== src/Mail/BatchExamples.antt =====
-- A batch over the sample database.
use crm_nusrv.Base.{ℕ, ◌≡◌, ◌≤◌, refl, true, some, none, [], ◌∷◌, List, length, All}
use crm_nusrv.Store.{Db}
use crm_nusrv.Store.Rows.{Outbox}
use crm_nusrv.Store.Samples.{sample_db}
use crm_nusrv.Mail.Outbound.{claimable}
use crm_nusrv.Mail.Outbound.Worker.{Input, run, goes, start}
use crm_nusrv.Mail.Outbound.Batch.{
  Summary, total, is_due, candidates_of, process_batch, process_all,
}
use crm_nusrv.Mail.Outbound.Batch.Counts.{process_batch_counts}

abbrev input : Input
input = record {
  clock = 1000;
  fresh = record { thread_id = 5; message_id = 6; uuid = "3f2a" };
  smtp = none;
}

abbrev inputs : List Input
inputs =
    input ∷ input ∷ input ∷ input ∷ input ∷ input ∷ input ∷ input ∷ input ∷ input ∷ input ∷ input
    ∷ []

abbrev one_sent : Summary
one_sent = record {
  candidates = 1;
  sent_count = 1;
  deferred_count = 0;
  cancelled_count = 0;
  failed_count = 0;
  not_claimed_count = 0;
  conflicts = 0;
  ownership_lost = 0;
}

abbrev sent_db : Db
sent_db = (run none 1 inputs (goes sample_db start)).db

sends_one : process_batch none (λ _. inputs) 1000 sample_db ≡ some (sent_db, one_sent)
unfolding run process_batch process_all candidates_of crm_nusrv.Mail.Outbound.Batch.by_schedule
    crm_nusrv.Mail.Outbound.Batch.insert_due crm_nusrv.Mail.Outbound.claim claimable
    crm_nusrv.Mail.Outbound.read_token crm_nusrv.Base.update_many
    crm_nusrv.Mail.Outbound.load_context crm_nusrv.Mail.Outbound.evaluate_eligibility
    crm_nusrv.Mail.Outbound.resolve_mail_configuration_for_row
    crm_nusrv.Mail.Configuration.resolve_for_outbound crm_nusrv.Mail.Configuration.is_override
    crm_nusrv.Mail.Configuration.apply_outbound_guards
    crm_nusrv.Mail.Configuration.is_environment_allowed crm_nusrv.Mail.Configuration.reached
    crm_nusrv.Renewal.Policy.is_reminder_eligible crm_nusrv.Renewal.Policy.aggregate_effective_holds
    crm_nusrv.Renewal.Policy.active_holds crm_nusrv.Renewal.Policy.is_effective_hold
    crm_nusrv.Mail.Configuration.resolve_pinned
    crm_nusrv.Mail.Outbound.Materialize.generate_stable_message_id
    crm_nusrv.Mail.Outbound.Materialize.materialize
    crm_nusrv.Mail.Outbound.Materialize.materialize_new crm_nusrv.Mail.Threads.resolve_or_create
    crm_nusrv.Mail.Outbound.Recording.record_health crm_nusrv.Mail.Outbound.Recording.record_success
    crm_nusrv.Mail.Outbound.Writes.mark_attempt crm_nusrv.Mail.Outbound.check_recipient
    crm_nusrv.Mail.Outbound.evaluate_customer crm_nusrv.Mail.Recipient.resolve_primary_recipient
sends_one = refl

process_batch_counts_example :
    (length (candidates_of 1000 sample_db) ≤ 50)
    × All (λ (x : ℕ × Outbox). is_due 1000 x ≡ true) (candidates_of 1000 sample_db)
    × (total one_sent ≡ length (candidates_of 1000 sample_db))
    × (one_sent.candidates ≡ length (candidates_of 1000 sample_db))
process_batch_counts_example = process_batch_counts none (λ _. inputs) 1000 sample_db sends_one
