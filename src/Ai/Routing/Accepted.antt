-- ===== src/Ai/Routing/Accepted.antt =====
-- What an automatic acceptance has done, and what it never does.
use crm_nusrv.Base.{
  ℕ, ◌≡◌, inl, inr, refl, ap, true, false, some, find, matches, arith, Option-cases,
}
use crm_nusrv.Base.Results.{Result, ok, throw}
use crm_nusrv.Store.{Db}
use crm_nusrv.Store.Enums.{RoutingStatus, RenewalCaseStatus, AiIntent, MessageDirection}
use crm_nusrv.Store.Rows.{RenewalCase, EmailMessage, Classification, RoutingDecision}
use crm_nusrv.Renewal.Transition.{applied, apply_transition, TransitionResult, cas_lost}
use crm_nusrv.Renewal.Transition.Swap.{IsMoved, apply_transition-IsMoved}
use crm_nusrv.Ai.Routing.{RoutingOutcome, succeeded, skipped, routing_owned, finish, is_classified}
use crm_nusrv.Ai.Routing.Accept.{
  acceptance, machine, accept_transaction, accepted, email_message_changed, case_changed,
  ownership_lost, resolve_case_changed, execute_auto_accept, accept_case, Accepting,
}

-- What the transaction has done, where it commits.
record IsCommitted (id token message_id case_id : ℕ) (c : RenewalCase) (now : ℕ) (db db' : Db)
    : Type 0 where
  after : Db
  moved_case : RenewalCase
  classified : matches message_id is_classified db.messages ≡ true
  transition :
      apply_transition case_id c RenewalCaseStatus.accepted
        (acceptance now)
        "ai.routing.auto_accepted"
        machine
        db
      ≡ ok (after, applied moved_case)
  owned : matches id (routing_owned token) after.routing ≡ true
  written : db' ≡ finish id token RoutingStatus.succeeded "AUTO_ACCEPTED" now after

accept_transaction-IsCommitted :
    (id token message_id case_id : ℕ) (c : RenewalCase) (now : ℕ) (db : Db) {db' : Db}
    → accept_transaction id token message_id case_id c now db ≡ ok (db', accepted)
    → IsCommitted id token message_id case_id c now db db'
unfolding accept_transaction
accept_transaction-IsCommitted id token message_id case_id c now db {db'} e =
    go
      (apply_transition case_id c RenewalCaseStatus.accepted (acceptance now)
        "ai.routing.auto_accepted" machine db)
      refl
  where
    go :
        (r : Result (Db × TransitionResult))
        → apply_transition case_id c RenewalCaseStatus.accepted
            (acceptance now)
            "ai.routing.auto_accepted"
            machine
            db
          ≡ r
        → IsCommitted id token message_id case_id c now db db'
    go (throw x) q = ground arith
    go (ok (after, cas_lost status)) q = ground arith
    go (ok (after, applied m)) q = record {
      after = after;
      moved_case = m;
      classified = ground arith;
      transition = q;
      owned = ground arith;
      written = ground arith;
    }

resolve_case_changed-skips :
    (id token message_id thread_id case_id now : ℕ) (later : Db) {db' : Db} {o : RoutingOutcome}
    → resolve_case_changed id token message_id thread_id case_id now later ≡ ok (db', o)
    → o ≡ skipped
unfolding resolve_case_changed
resolve_case_changed-skips id token message_id thread_id case_id now later e = ground arith

accept_case-IsCommitted :
    (id token classification_id message_id thread_id case_id : ℕ) (c : RenewalCase) (now : ℕ)
    (seen db later : Db) {db' : Db}
    → accept_case id token classification_id message_id thread_id case_id c now seen db later
      ≡ ok (db', succeeded)
    → IsCommitted id token message_id case_id c now db db'
unfolding accept_case
accept_case-IsCommitted id token classification_id message_id thread_id case_id c now seen db later
      {db'} e =
    go (accept_transaction id token message_id case_id c now db) refl
  where
    go :
        (r : Result (Db × Accepting))
        → accept_transaction id token message_id case_id c now db ≡ r
        → IsCommitted id token message_id case_id c now db db'
    go (throw x) q = ground arith
    go (ok (after, accepted)) q =
        accept_transaction-IsCommitted id token message_id case_id c now db (ground arith)
    go (ok (after, email_message_changed)) q = ground arith
    go (ok (after, ownership_lost)) q = ground arith
    go (ok (after, case_changed)) q = ground (
      arith,
      resolve_case_changed-skips id token message_id thread_id case_id now later {db' = db'}
          {o = succeeded},
    )

-- What an automatic acceptance that reports success rests on and has done: the facts of its reads,
-- and the one transaction.
pub record IsAccepted (id : ℕ) (decision : RoutingDecision) (token now : ℕ) (seen db db' : Db)
    : Type 0 where
  pub classification : Classification
  pub message : EmailMessage
  pub case_id : ℕ
  pub after : Db
  pub classified_by : find decision.ai_classification_id seen.classifications ≡ some classification
  pub no_review : classification.requires_human_review ≡ false
  pub intent : classification.intent ≡ AiIntent.accept_renewal
  pub said_by : find classification.email_message_id seen.messages ≡ some message
  pub inbound : message.direction ≡ MessageDirection.inbound
  pub about : message.renewal_case_id ≡ some case_id
  pub still_classified : matches classification.email_message_id is_classified db.messages ≡ true
  pub owned : matches id (routing_owned token) db.routing ≡ true
  pub moved :
      IsMoved case_id RenewalCaseStatus.accepted
        (acceptance now)
        "ai.routing.auto_accepted"
        machine
        db
        after
  pub written : db' ≡ finish id token RoutingStatus.succeeded "AUTO_ACCEPTED" now after

-- The facts of the reads, with the call that goes on.
record IsRead (id : ℕ) (decision : RoutingDecision) (token now : ℕ) (seen db later db' : Db)
    : Type 0 where
  classification : Classification
  message : EmailMessage
  case_id : ℕ
  renewal_case : RenewalCase
  classified_by : find decision.ai_classification_id seen.classifications ≡ some classification
  no_review : classification.requires_human_review ≡ false
  intent : classification.intent ≡ AiIntent.accept_renewal
  said_by : find classification.email_message_id seen.messages ≡ some message
  inbound : message.direction ≡ MessageDirection.inbound
  about : message.renewal_case_id ≡ some case_id
  goes_on :
      accept_case id token decision.ai_classification_id classification.email_message_id
        message.thread_id case_id renewal_case now seen db later
      ≡ ok (db', succeeded)

execute_auto_accept-IsRead :
    (id : ℕ) (decision : RoutingDecision) (token now : ℕ) (seen db later : Db) {db' : Db}
    → execute_auto_accept id decision token now seen db later ≡ ok (db', succeeded)
    → IsRead id decision token now seen db later db'
unfolding execute_auto_accept
execute_auto_accept-IsRead id decision token now seen db later {db'} e =
    elim (Option-cases (find decision.ai_classification_id seen.classifications)) [
      | inl none_there ↦ ground arith
      | inr (k, by) ↦ elim (Option-cases (find k.email_message_id seen.messages)) [
        | inl no_message ↦ ground arith
        | inr (m, said) ↦ elim (Option-cases m.renewal_case_id) [
          | inl no_case ↦ ground arith
          | inr (case_id, about) ↦ elim (Option-cases (find case_id seen.renewal_cases)) [
            | inl gone ↦ ground arith
            | inr (c, there) ↦ record {
              classification = k;
              message = m;
              case_id = case_id;
              renewal_case = c;
              classified_by = by;
              no_review = ground arith;
              intent = ground arith;
              said_by = said;
              inbound = ground arith;
              about = about;
              goes_on = ground arith;
            }
          ]
        ]
      ]
    ]

-- A renewal that was accepted without the staff was accepted by an inbound message whose
-- classification is an acceptance that needs no review; when its transaction ran, the message was
-- still classified, the decision was still the worker's, and the policy allowed
-- the case to move; the case, its audit event and the decision are all that was written.
pub execute_auto_accept-IsAccepted :
    (id : ℕ) (decision : RoutingDecision) (token now : ℕ) (seen db later : Db) {db' : Db}
    → execute_auto_accept id decision token now seen db later ≡ ok (db', succeeded)
    → IsAccepted id decision token now seen db db'
execute_auto_accept-IsAccepted id decision token now seen db later {db'} e =
    let r = execute_auto_accept-IsRead id decision token now seen db later e in
    let t =
      accept_case-IsCommitted id token decision.ai_classification_id
        r.classification.email_message_id r.message.thread_id r.case_id r.renewal_case now seen db
        later r.goes_on in
    let (moved, _) =
      apply_transition-IsMoved r.case_id r.renewal_case RenewalCaseStatus.accepted (acceptance now)
        "ai.routing.auto_accepted" machine db t.transition in
    let same_routing : t.after.routing ≡ db.routing = ap (λ (d : Db). d.routing) moved.rest in
    record {
      classification = r.classification;
      message = r.message;
      case_id = r.case_id;
      after = t.after;
      classified_by = r.classified_by;
      no_review = r.no_review;
      intent = r.intent;
      said_by = r.said_by;
      inbound = r.inbound;
      about = r.about;
      still_classified = t.classified;
      owned = rw (← same_routing) t.owned;
      moved = moved;
      written = t.written;
    }
