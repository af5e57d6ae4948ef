-- ===== src/Ai/Routing/Accept.antt =====
-- `executeAutoAccept` and `processOne` of ai-routing.service.ts.
use crm_nusrv.Base.{
  ℕ, Bool, true, false, not, ◌&&◌, ◌||◌, Option, none, some, String, [], ◌∷◌, Table, find,
  find_first, matches, ltb, ◌==◌, is_some, if◌then◌else◌,
}
use crm_nusrv.Base.Results.{Result, ok, find_or_throw, ◌>>=◌}
use crm_nusrv.Store.{Db}
use crm_nusrv.Store.Enums.{
  RenewalCaseStatus, CustomerDecision, ActorType, MessageDirection, RoutingStatus,
}
use crm_nusrv.Store.Rows.{
  RenewalCase, EmailMessage, Classification, ClassificationReview, RoutingDecision,
}
use crm_nusrv.Renewal.Transition.{
  same, is_legal, ExtraData, Actor, TransitionResult, applied, cas_lost, apply_transition,
}
use crm_nusrv.Ai.Eligibility.{is_acceptance}
use crm_nusrv.Ai.Routing.{
  RoutingOutcome, succeeded, skipped, failed, conflict, routing_owned, finish, is_classified,
  route_fallback,
}

abbrev newer : ℕ × Classification → ℕ × Classification → Bool
newer (j, a) (k, b) = ltb b.created_at a.created_at || (a.created_at == b.created_at && ltb k j)

abbrev pick : Option (ℕ × Classification) → ℕ × Classification → ℕ × Classification
pick none c = c
pick (some best) c = if newer c best then c else best

-- `findFirst` of the message's classifications, `createdAt` and `id` descending
unfoldable pub latest : ℕ → Option (ℕ × Classification) → Table Classification → Option ℕ
latest message_id none [] = none
latest message_id (some (k, _)) [] = some k
latest message_id best (c ∷ t) =
    latest message_id (if c.1.email_message_id == message_id then some (pick best c) else best) t

abbrev pub is_inbound : EmailMessage → Bool
is_inbound m = elim m.direction [
  | MessageDirection.inbound ↦ true
  | MessageDirection.outbound ↦ false
]

abbrev pub is_id : Option ℕ → ℕ → Bool
is_id none k = false
is_id (some j) k = j == k

-- `actor: { actorType: ActorType.AI }`
abbrev pub machine : Actor
machine = record { actor_type = ActorType.ai; actor_id = none }

abbrev pub acceptance : ℕ → ExtraData
acceptance now = record {
  customer_decision = some CustomerDecision.accepted;
  accepted_at = some now;
  do_not_renew_at = none;
  fulfilled_at = none;
}

-- How the transaction ends; all but `accepted` roll it back.
pub data Accepting : Type 0 where
  accepted email_message_changed case_changed ownership_lost : Accepting

abbrev close : ℕ → ℕ → ℕ → Db → Db × TransitionResult → Db × Accepting
close id token now db (after, applied c) =
    if matches id (routing_owned token) after.routing
    then (finish id token RoutingStatus.succeeded "AUTO_ACCEPTED" now after, accepted)
    else (db, ownership_lost)
close id token now db (after, cas_lost _) = (db, case_changed)

-- The transaction of `executeAutoAccept`. Its touch of the message writes the status that it has.
unfoldable pub accept_transaction : ℕ → ℕ → ℕ → ℕ → RenewalCase → ℕ → Db → Result (Db × Accepting)
accept_transaction id token message_id case_id renewal_case now db =
    if matches message_id is_classified db.messages
    then (do
      r ←
          apply_transition case_id renewal_case RenewalCaseStatus.accepted (acceptance now)
            "ai.routing.auto_accepted" machine db
      ok (close id token now db r))
    else ok (db, email_message_changed)

abbrev pub skip : ℕ → ℕ → String → ℕ → Db → Result (Db × RoutingOutcome)
skip id token code now db = ok (finish id token RoutingStatus.skipped code now db, skipped)

abbrev pub skip_to_review : ℕ → ℕ → ℕ → ℕ → String → ℕ → Db → Result (Db × RoutingOutcome)
skip_to_review id token message_id thread_id code now db = do
  after ← route_fallback id token message_id thread_id code now db
  ok (after, skipped)

-- `resolveAutoAcceptAbort` for a case that changed
unfoldable pub resolve_case_changed : ℕ → ℕ → ℕ → ℕ → ℕ → ℕ → Db → Result (Db × RoutingOutcome)
resolve_case_changed id token message_id thread_id case_id now later = do
  fresh ← find_or_throw case_id later.renewal_cases
  if same fresh.status RenewalCaseStatus.accepted
      then skip id token "SKIPPED_ALREADY_ACCEPTED" now later
      else skip_to_review id token message_id thread_id "SKIPPED_CONCURRENT_BUSINESS_DECISION" now
          later

abbrev resolve : ℕ → ℕ → ℕ → ℕ → ℕ → ℕ → Db → Db × Accepting → Result (Db × RoutingOutcome)
resolve id token message_id thread_id case_id now later (after, accepted) = ok (after, succeeded)
resolve id token message_id thread_id case_id now later (after, ownership_lost) =
    ok (after, conflict)
resolve id token message_id thread_id case_id now later (after, email_message_changed) =
    skip id token "SKIPPED_HUMAN_ALREADY_REVIEWED" now later
resolve id token message_id thread_id case_id now later (after, case_changed) =
    resolve_case_changed id token message_id thread_id case_id now later

-- `executeAutoAccept`, once the case is found
unfoldable pub accept_case :
    ℕ → ℕ → ℕ → ℕ → ℕ → ℕ → RenewalCase → ℕ → Db → Db → Db → Result (Db × RoutingOutcome)
accept_case id token classification_id message_id thread_id case_id c now seen db later =
    if same c.status RenewalCaseStatus.accepted
    then skip id token "SKIPPED_ALREADY_ACCEPTED" now db
    else if not (is_legal c.status RenewalCaseStatus.accepted)
    then skip_to_review id token message_id thread_id "SKIPPED_CONCURRENT_BUSINESS_DECISION" now db
    else if is_some (
        find_first (λ (r : ClassificationReview). r.ai_classification_id == classification_id)
          seen.reviews)
    then skip id token "SKIPPED_HUMAN_ALREADY_REVIEWED" now db
    else (accept_transaction id token message_id case_id c now db
        >>= resolve id token message_id thread_id case_id now later)

abbrev pub case_at : Option ℕ → Db → Option (ℕ × RenewalCase)
case_at none seen = none
case_at (some k) seen = elim (find k seen.renewal_cases) [ none ↦ none | some c ↦ some (k, c) ]

-- `executeAutoAccept`
unfoldable pub execute_auto_accept :
    ℕ → RoutingDecision → ℕ → ℕ → Db → Db → Db → Result (Db × RoutingOutcome)
execute_auto_accept id decision token now seen db later = do
  let cid = decision.ai_classification_id
  classification ← find_or_throw cid seen.classifications
  let mid = classification.email_message_id
  message ← find_or_throw mid seen.messages
  if not (is_inbound message)
        || (classification.requires_human_review || not (is_acceptance classification.intent))
      then ok (finish id token RoutingStatus.failed "INVARIANT_VIOLATION" now db, failed)
      else if not (is_id (latest mid none seen.classifications) cid)
      then skip id token "SKIPPED_CLASSIFICATION_SUPERSEDED" now db
      else elim (case_at message.renewal_case_id seen) [
        | none ↦ skip_to_review id token mid message.thread_id "SKIPPED_NO_RENEWAL_CASE" now db
        | some (k, c) ↦ accept_case id token cid mid message.thread_id k c now seen db later
      ]
