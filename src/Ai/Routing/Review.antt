-- ===== src/Ai/Routing/Review.antt =====
-- What is left alone when a message is handed to the staff.
use crm_nusrv.Base.{
  ◌⊎◌, ℕ, ◌≡◌, ◌≢◌, inl, inr, refl, ap, ◌∙◌, some, find, matches, arith, find-update_many,
  Option-cases, Bool-cases, String,
}
use crm_nusrv.Base.Results.{Result, ok, throw}
use crm_nusrv.Store.{Db}
use crm_nusrv.Store.Enums.{ClassificationStatus}
use crm_nusrv.Store.Rows.{EmailMessage, RoutingDecision, Classification}
use crm_nusrv.Ai.Routing.{
  succeeded, skipped, failed, not_claimed, paused, RoutingOutcome, conflict, routing_owned,
  is_classified, to_review, ReviewRouting, try_route, commit_review, commit_fallback,
  route_fallback, execute_human_review,
}

-- The cases stay, and so does every message that was not waiting to be routed.
pub record LeavesOthers (db db' : Db) : Type 0 where
  pub cases : db'.renewal_cases ≡ db.renewal_cases
  pub messages :
      (j : ℕ) (m : EmailMessage)
      → find j db.messages ≡ some m
      → m.classification_status ≢ ClassificationStatus.classified
      → find j db'.messages ≡ some m

try_route-LeavesOthers :
    (message_id thread_id : ℕ) (db : Db) {db' : Db} {r : ReviewRouting}
    → try_route message_id thread_id db ≡ ok (db', r)
    → LeavesOthers db db'
unfolding try_route
try_route-LeavesOthers message_id thread_id db {db'} {r} e = record {
  cases = ground arith;
  messages = λ j m found other.
      ground (arith, find-update_many j message_id is_classified to_review db.messages);
}

pub LeavesOthers-refl : (db : Db) → LeavesOthers db db
LeavesOthers-refl db = record { cases = refl; messages = λ j m e _. e }

-- A write to the tables besides.
pub LeavesOthers-same :
    {db after db' : Db}
    → LeavesOthers db after
    → db'.renewal_cases ≡ after.renewal_cases
    → db'.messages ≡ after.messages
    → LeavesOthers db db'
LeavesOthers-same l c m = record {
  cases = c ∙ l.cases;
  messages = λ j n found other. rw m (l.messages j n found other);
}

commit_review-LeavesOthers :
    (id token message_id now : ℕ) (db after : Db) (r : ReviewRouting)
    → LeavesOthers db after
    → LeavesOthers db (commit_review id token message_id now db (after, r)).0
commit_review-LeavesOthers id token message_id now db after r l =
    elim (Bool-cases (matches id (routing_owned token) after.routing)) [
      | inr lost ↦ rw lost (LeavesOthers-refl db)
      | inl mine ↦ rw mine (LeavesOthers-same l (ground arith) (ground arith))
    ]

commit_fallback-LeavesOthers :
    (id token message_id : ℕ) (code : String) (now : ℕ) (db after : Db) (r : ReviewRouting)
    → LeavesOthers db after
    → LeavesOthers db (commit_fallback id token message_id code now db (after, r))
commit_fallback-LeavesOthers id token message_id code now db after r l =
    elim (Bool-cases (matches id (routing_owned token) after.routing)) [
      | inr lost ↦ rw lost (LeavesOthers-refl db)
      | inl mine ↦ rw mine (LeavesOthers-same l (ground arith) (ground arith))
    ]

pub route_fallback-LeavesOthers :
    (id token message_id thread_id : ℕ) (code : String) (now : ℕ) (db : Db) {db' : Db}
    → route_fallback id token message_id thread_id code now db ≡ ok db'
    → LeavesOthers db db'
unfolding route_fallback
route_fallback-LeavesOthers id token message_id thread_id code now db {db'} e =
    go (try_route message_id thread_id db) refl
  where
    go :
        (t : Result (Db × ReviewRouting))
        → try_route message_id thread_id db ≡ t
        → LeavesOthers db db'
    go (throw x) q = ground arith
    go (ok (after, r)) q =
        let same : commit_fallback id token message_id code now db (after, r) ≡ db' =
          ground arith in
        rw same at (
          commit_fallback-LeavesOthers id token message_id code now db after r
            (try_route-LeavesOthers message_id thread_id db q))

pub settle : {X : Type 0} (o : RoutingOutcome) → (o ≡ conflict → X) → X ⊎ (o ≢ conflict)
settle conflict f = inl (f refl)
settle succeeded f = inr (λ e. cc)
settle skipped f = inr (λ e. cc)
settle failed f = inr (λ e. cc)
settle not_claimed f = inr (λ e. cc)
settle paused f = inr (λ e. cc)

-- Handing a message to the staff never touches a case, and never takes back a message that a member
-- of the staff has resolved or that waits for one; if the lease of the decision is lost, nothing is
-- written.
pub execute_human_review-LeavesOthers :
    (id : ℕ) (decision : RoutingDecision) (token now : ℕ) (seen db : Db) {db' : Db}
    {o : RoutingOutcome}
    → execute_human_review id decision token now seen db ≡ ok (db', o)
    → LeavesOthers db db' × ((db' ≡ db) ⊎ (o ≢ conflict))
unfolding execute_human_review
execute_human_review-LeavesOthers id decision token now seen db {db'} {o} e =
    elim (Option-cases (find decision.ai_classification_id seen.classifications)) [
      | inl none_there ↦ ground arith
      | inr (k, by) ↦ elim (Option-cases (find k.email_message_id seen.messages)) [
        | inl no_message ↦ ground arith
        | inr (m, said) ↦ go k m by said (try_route k.email_message_id m.thread_id db) refl
      ]
    ]
  where
    go :
        (k : Classification) (m : EmailMessage)
        → find decision.ai_classification_id seen.classifications ≡ some k
        → find k.email_message_id seen.messages ≡ some m
        → (t : Result (Db × ReviewRouting)) → try_route k.email_message_id m.thread_id db ≡ t
        → LeavesOthers db db' × ((db' ≡ db) ⊎ (o ≢ conflict))
    go k m by said (throw x) q = ground arith
    go k m by said (ok (after, r)) q =
        let same : commit_review id token k.email_message_id now db (after, r) ≡ (db', o) =
          ground arith in
        (
          rw (ap (λ (x : Db × RoutingOutcome). x.0) same) at (
              commit_review-LeavesOthers id token k.email_message_id now db after r
                (try_route-LeavesOthers k.email_message_id m.thread_id db q)),
          settle o (λ lost. ground arith),
        )
