-- ===== src/Ai/Examples.antt =====
-- The theorems on routing, applied to an inbound acceptance of the sample case.
use crm_nusrv.Base.{ℕ, Bool, ◌≡◌, ◌≢◌, ◌⊎◌, ◌↔◌, refl, true, false, some, none, [], ◌∷◌}
use crm_nusrv.Base.Results.{ok}
use crm_nusrv.Store.{Db}
use crm_nusrv.Store.Enums.{
  RenewalCaseStatus, ActorType, MessageDirection, ThreadStatus, ClassificationStatus, AiIntent,
  RoutingAction, RoutingStatus,
}
use crm_nusrv.Store.Rows.{Thread, EmailMessage, Classification, RoutingDecision}
use crm_nusrv.Store.Samples.{sample_db, sample_case}
use crm_nusrv.Renewal.Transition.{moved}
use crm_nusrv.Ai.Eligibility.{RoutingInput}
use crm_nusrv.Ai.Routing.{
  RoutingOutcome, succeeded, skipped, conflict, routing_claimable, routing_claimed,
  execute_human_review, routed_event,
}
use crm_nusrv.Ai.Routing.Accept.{execute_auto_accept, acceptance}
use crm_nusrv.Ai.Routing.Process.{Others, claim_routing, process_one}
use crm_nusrv.Ai.Routing.Accepted.{IsAccepted}
use crm_nusrv.Ai.Routing.Handled.{process_one-IsAccepted}

abbrev question : RoutingInput
question = record {
  intent = AiIntent.accept_renewal;
  renewal_case_id = some 1;
  auto_route_accept_enabled = true;
  cutover_at = some 500;
  now = 1000;
  message_created_at = 900;
  message_occurred_at = 400;
}

abbrev pub answer : EmailMessage
answer = record {
  thread_id = 3;
  customer_id = some 1;
  renewal_case_id = some 1;
  direction = MessageDirection.inbound;
  subject = "Re: Renewal";
  from_address = "info@client.sa";
  to_addresses = "billing@nusrv.sa" ∷ [];
  body_text = "Please go on.";
  occurred_at = 900;
  mail_configuration_id = some 1;
  external_message_id = some "<a@client.sa>";
  in_reply_to = none;
  references = none;
  body_html = none;
  imap_folder = none;
  imap_uid = none;
  imap_uid_validity = none;
  imap_identity_key = none;
  classification_status = ClassificationStatus.classified;
}

abbrev pub thread : Thread
thread = record {
  renewal_case_id = some 1;
  customer_id = some 1;
  mail_configuration_id = 1;
  subject = "Renewal";
  status = ThreadStatus.open_thread;
  last_message_at = 900;
}

abbrev understood : Classification
understood = record {
  email_message_id = 4;
  intent = AiIntent.accept_renewal;
  requires_human_review = false;
  created_at = 950;
}

abbrev pub decision : RoutingDecision
decision = record {
  ai_classification_id = 5;
  action = RoutingAction.auto_accept;
  status = RoutingStatus.pending;
  attempts = 0;
  last_attempt_at = none;
  result_code = none;
  completed_at = none;
}

abbrev pub answered_db : Db
answered_db = record sample_db {
  threads = (3, thread) ∷ [];
  messages = (4, answer) ∷ [];
  classifications = (5, understood) ∷ [];
  routing = (6, decision) ∷ [];
}

abbrev pub nobody : Others
nobody = record { at_reads = λ d. d; at_commit = λ d. d; at_abort = λ d. d }

abbrev accepted_db : Db
accepted_db = record answered_db {
  renewal_cases = (1, moved RenewalCaseStatus.accepted (acceptance 1000) sample_case) ∷ [];
  routing =
      (
        6,
        record decision {
          status = RoutingStatus.succeeded;
          attempts = 1;
          last_attempt_at = some 1000;
          result_code = some "AUTO_ACCEPTED";
          completed_at = some 1000;
        },
      )
      ∷ [];
  audit =
      record {
        actor_type = ActorType.ai;
        actor_id = none;
        event_key = "ai.routing.auto_accepted";
        subject_type = "RenewalCase";
        subject_id = 1;
      }
      ∷ [];
}

accepts_alone : process_one 6 true 1000 nobody answered_db ≡ ok (accepted_db, succeeded)
unfolding process_one routing_claimable crm_nusrv.Base.update_many execute_auto_accept
    crm_nusrv.Ai.Routing.Accept.latest crm_nusrv.Ai.Routing.Accept.accept_case
    crm_nusrv.Renewal.Transition.same crm_nusrv.Renewal.Transition.is_legal
    crm_nusrv.Ai.Routing.Accept.accept_transaction crm_nusrv.Renewal.Transition.apply_transition
    crm_nusrv.Renewal.Transition.swap
accepts_alone = refl

process_one-IsAccepted_example :
    ◌≡◌ {A = Bool} true true
    × (routing_claimable 1000 decision ≡ true)
    × IsAccepted 6
        (routing_claimed 1000 decision)
        1000
        1000
        (claim_routing 6 1000 answered_db)
        (claim_routing 6 1000 answered_db)
        accepted_db
process_one-IsAccepted_example =
    process_one-IsAccepted 6 true 1000 nobody answered_db decision refl refl accepts_alone

abbrev claimed_db : Db
claimed_db = record answered_db { routing = (6, routing_claimed 1000 decision) ∷ [] }

abbrev reviewed_db : Db
reviewed_db = record answered_db {
  threads = (3, record thread { status = ThreadStatus.human_review }) ∷ [];
  messages = (4, record answer { classification_status = ClassificationStatus.human_review }) ∷ [];
  routing =
      (
        6,
        record decision {
          status = RoutingStatus.succeeded;
          attempts = 1;
          last_attempt_at = some 1000;
          result_code = some "ROUTED_TO_HUMAN_REVIEW";
          completed_at = some 1001;
        },
      )
      ∷ [];
  audit = routed_event 4 ∷ [];
}

reviews :
    execute_human_review 6 decision 1000 1001 claimed_db claimed_db ≡ ok (reviewed_db, succeeded)
unfolding execute_human_review crm_nusrv.Ai.Routing.try_route crm_nusrv.Base.update_many
reviews = refl

-- The case was accepted by the staff between the claim and the reads.
abbrev staff_db : Db
staff_db = record claimed_db {
  renewal_cases = (1, record sample_case { status = RenewalCaseStatus.accepted }) ∷ [];
}

abbrev skipped_db : Db
skipped_db = record staff_db {
  routing =
      (
        6,
        record decision {
          status = RoutingStatus.skipped;
          attempts = 1;
          last_attempt_at = some 1000;
          result_code = some "SKIPPED_ALREADY_ACCEPTED";
          completed_at = some 1001;
        },
      )
      ∷ [];
}

skips :
    execute_auto_accept 6 decision 1000 1001 staff_db staff_db staff_db ≡ ok (skipped_db, skipped)
unfolding execute_auto_accept crm_nusrv.Ai.Routing.Accept.latest
    crm_nusrv.Ai.Routing.Accept.accept_case crm_nusrv.Renewal.Transition.same
    crm_nusrv.Base.update_many
skips = refl
