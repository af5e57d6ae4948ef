-- ===== src/Ai/Routing.antt =====
-- apps/api/src/modules/ai/ai-routing.service.ts: the execution of a routing decision, which accepts a
-- renewal or hands the message to the staff. A call reads first and writes in a transaction later,
-- so it has the database at its reads (`seen`), at its transaction (`db`) and, where a transaction
-- was rolled back, at what follows (`later`).

pub mod Accept
pub mod Process
pub mod Accepted
pub mod Review
pub mod Skipped
pub mod Handled
pub mod Batch
use crm_nusrv.Base.{
  ℕ, ◌+◌, ◌*◌, suc, Bool, true, false, not, ◌&&◌, ◌||◌, Option, none, some, String, List, [], ◌∷◌,
  ◌++◌, Table, find, find_first, matches, update_many, ltb, ◌==◌, is_some, if◌then◌else◌,
}
use crm_nusrv.Base.Results.{Result, ok, throw, find_or_throw, ◌>>=◌}
use crm_nusrv.Store.{Db}
use crm_nusrv.Store.Enums.{
  RenewalCaseStatus, CustomerDecision, ActorType, MessageDirection, ThreadStatus,
  ClassificationStatus, AiIntent, RoutingAction, RoutingStatus,
}
use crm_nusrv.Store.Rows.{
  RenewalCase, Thread, EmailMessage, Classification, ClassificationReview, RoutingDecision,
  AuditEvent,
}
use crm_nusrv.Renewal.Transition.{
  same, is_legal, ExtraData, Actor, TransitionResult, applied, cas_lost, apply_transition,
}
use crm_nusrv.Ai.Eligibility.{is_acceptance}

-- `AiRoutingOutcome`
pub data RoutingOutcome : Type 0 where
  succeeded skipped failed not_claimed conflict paused : RoutingOutcome

-- `AI_ROUTING_STALE_PROCESSING_LEASE_MS`
abbrev pub routing_lease_ms : ℕ
routing_lease_ms = 2 * 60 * 1000

abbrev is_pending : RoutingStatus → Bool
is_pending RoutingStatus.pending = true
is_pending _ = false

abbrev is_processing : RoutingStatus → Bool
is_processing RoutingStatus.processing = true
is_processing _ = false

abbrev before : Option ℕ → ℕ → Bool
before none now = false
before (some t) now = ltb (t + routing_lease_ms) now

abbrev holds_token : Option ℕ → ℕ → Bool
holds_token none token = false
holds_token (some t) token = t == token

unfoldable pub routing_claimable : ℕ → RoutingDecision → Bool
routing_claimable now d =
    is_pending d.status || (is_processing d.status && before d.last_attempt_at now)

abbrev pub routing_claimed : ℕ → RoutingDecision → RoutingDecision
routing_claimed now d = record d {
  status = RoutingStatus.processing;
  last_attempt_at = some now;
  attempts = suc d.attempts;
}

-- The guard of every write that finishes a decision.
abbrev pub routing_owned : ℕ → RoutingDecision → Bool
routing_owned token d = is_processing d.status && holds_token d.last_attempt_at token

abbrev pub finished : RoutingStatus → String → ℕ → RoutingDecision → RoutingDecision
finished status code now d = record d {
  status = status;
  result_code = some code;
  completed_at = some now;
}

abbrev pub finish : ℕ → ℕ → RoutingStatus → String → ℕ → Db → Db
finish id token status code now db = record db {
  routing = update_many id (routing_owned token) (finished status code now) db.routing;
}

abbrev pub routed_event : ℕ → AuditEvent
routed_event message_id = record {
  actor_type = ActorType.ai;
  actor_id = none;
  event_key = "ai.routing.human_review_routed";
  subject_type = "EmailMessage";
  subject_id = message_id;
}

abbrev log_when : Bool → AuditEvent → Db → Db
log_when true e db = record db { audit = db.audit ++ e ∷ [] }
log_when false e db = db

pub data ReviewRouting : Type 0 where
  routed already_human_review already_resolved : ReviewRouting

abbrev pub is_classified : EmailMessage → Bool
is_classified m = elim m.classification_status [
  | ClassificationStatus.classified ↦ true
  | _ ↦ false
]

abbrev pub to_review : EmailMessage → EmailMessage
to_review m = record m { classification_status = ClassificationStatus.human_review }

abbrev not_resolved : Thread → Bool
not_resolved t = elim t.status [ ThreadStatus.resolved ↦ false | _ ↦ true ]

abbrev thread_to_review : Thread → Thread
thread_to_review t = record t { status = ThreadStatus.human_review }

-- The writes of `tryRouteEmailAndThreadToHumanReview`, by the status that its first read finds; the
-- transaction sees that status until it ends.
abbrev route_by : ClassificationStatus → ℕ → ℕ → Db → Db × ReviewRouting
route_by ClassificationStatus.resolved message_id thread_id db = (db, already_resolved)
route_by ClassificationStatus.human_review message_id thread_id db = (db, already_human_review)
route_by ClassificationStatus.classified message_id thread_id db = (
  record db {
    messages = update_many message_id is_classified to_review db.messages;
    threads = update_many thread_id not_resolved thread_to_review db.threads;
  },
  routed,
)
route_by ClassificationStatus.pending message_id thread_id db = (db, already_human_review)
route_by ClassificationStatus.failed message_id thread_id db = (db, already_human_review)

-- `tryRouteEmailAndThreadToHumanReview`
unfoldable pub try_route : ℕ → ℕ → Db → Result (Db × ReviewRouting)
try_route message_id thread_id db = do
  current ← find_or_throw message_id db.messages
  ok (route_by current.classification_status message_id thread_id db)

abbrev is_resolved : ReviewRouting → Bool
is_resolved already_resolved = true
is_resolved _ = false

abbrev is_routed : ReviewRouting → Bool
is_routed routed = true
is_routed _ = false

abbrev code_of : ReviewRouting → String → String
code_of already_resolved code = "SKIPPED_HUMAN_ALREADY_REVIEWED"
code_of _ code = code

-- The commit of `routeToHumanReviewFallback`; a lost lease rolls back.
abbrev pub commit_fallback : ℕ → ℕ → ℕ → String → ℕ → Db → Db × ReviewRouting → Db
commit_fallback id token message_id code now db (after, r) =
    if matches id (routing_owned token) after.routing
    then log_when (is_routed r) (routed_event message_id)
        (finish id token RoutingStatus.skipped (code_of r code) now after)
    else db

-- `routeToHumanReviewFallback`
unfoldable pub route_fallback : ℕ → ℕ → ℕ → ℕ → String → ℕ → Db → Result Db
route_fallback id token message_id thread_id code now db = do
  r ← try_route message_id thread_id db
  ok (commit_fallback id token message_id code now db r)

abbrev review_status : ReviewRouting → RoutingStatus
review_status already_resolved = RoutingStatus.skipped
review_status _ = RoutingStatus.succeeded

abbrev review_outcome : ReviewRouting → RoutingOutcome
review_outcome already_resolved = skipped
review_outcome _ = succeeded

abbrev pub commit_review : ℕ → ℕ → ℕ → ℕ → Db → Db × ReviewRouting → Db × RoutingOutcome
commit_review id token message_id now db (after, r) =
    if matches id (routing_owned token) after.routing
    then (
      log_when (not (is_resolved r)) (routed_event message_id)
          (finish id token (review_status r) (code_of r "ROUTED_TO_HUMAN_REVIEW") now after),
      review_outcome r,
    )
    else (db, conflict)

-- `executeHumanReviewRouting`
unfoldable pub execute_human_review :
    ℕ → RoutingDecision → ℕ → ℕ → Db → Db → Result (Db × RoutingOutcome)
execute_human_review id decision token now seen db = do
  classification ← find_or_throw decision.ai_classification_id seen.classifications
  message ← find_or_throw classification.email_message_id seen.messages
  r ← try_route classification.email_message_id message.thread_id db
  ok (commit_review id token classification.email_message_id now db r)
