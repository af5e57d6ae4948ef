-- ===== src/Ai/Routing/Skipped.antt =====
-- What an automatic acceptance that does not succeed leaves alone.
use crm_nusrv.Base.{
  ℕ, ◌≡◌, ◌≢◌, ◌⊎◌, inl, inr, refl, true, false, not, ◌||◌, none, find, arith, Option-cases,
  Bool-cases, String, is_some, find_first, ◌==◌,
}
use crm_nusrv.Base.Results.{Result, ok, throw}
use crm_nusrv.Store.{Db}
use crm_nusrv.Store.Enums.{RenewalCaseStatus}
use crm_nusrv.Store.Rows.{RoutingDecision, RenewalCase, ClassificationReview}
use crm_nusrv.Renewal.Transition.{same, is_legal}
use crm_nusrv.Ai.Eligibility.{is_acceptance}
use crm_nusrv.Ai.Routing.{RoutingOutcome, succeeded, skipped, conflict, route_fallback}
use crm_nusrv.Ai.Routing.Accept.{
  accept_transaction, accepted, email_message_changed, case_changed, ownership_lost, Accepting,
  resolve_case_changed, accept_case, execute_auto_accept, skip, skip_to_review, is_inbound, is_id,
  case_at, latest,
}
use crm_nusrv.Ai.Routing.Review.{
  settle, LeavesOthers, LeavesOthers-refl, LeavesOthers-same, route_fallback-LeavesOthers,
}

skip-LeavesOthers :
    (id token : ℕ) (code : String) (now : ℕ) (db : Db) {db' : Db} {o : RoutingOutcome}
    → skip id token code now db ≡ ok (db', o)
    → LeavesOthers db db' × (o ≡ skipped)
skip-LeavesOthers id token code now db e =
    (LeavesOthers-same (LeavesOthers-refl db) (ground arith) (ground arith), ground arith)

skip_to_review-LeavesOthers :
    (id token message_id thread_id : ℕ) (code : String) (now : ℕ) (db : Db) {db' : Db}
    {o : RoutingOutcome}
    → skip_to_review id token message_id thread_id code now db ≡ ok (db', o)
    → LeavesOthers db db' × (o ≡ skipped)
skip_to_review-LeavesOthers id token message_id thread_id code now db {db'} {o} e =
    go (route_fallback id token message_id thread_id code now db) refl
  where
    go :
        (t : Result Db)
        → route_fallback id token message_id thread_id code now db ≡ t
        → LeavesOthers db db' × (o ≡ skipped)
    go (throw x) q = ground arith
    go (ok after) q =
        let same_db : after ≡ db' = ground arith in
        (
          rw same_db at (route_fallback-LeavesOthers id token message_id thread_id code now db q),
          ground arith,
        )

resolve_case_changed-LeavesOthers :
    (id token message_id thread_id case_id now : ℕ) (later : Db) {db' : Db} {o : RoutingOutcome}
    → resolve_case_changed id token message_id thread_id case_id now later ≡ ok (db', o)
    → LeavesOthers later db' × (o ≡ skipped)
unfolding resolve_case_changed
resolve_case_changed-LeavesOthers id token message_id thread_id case_id now later {db'} {o} e =
    elim (Option-cases (find case_id later.renewal_cases)) [
      | inl gone ↦ ground arith
      | inr (c, there) ↦ elim (Bool-cases (same c.status RenewalCaseStatus.accepted)) [
        | inl yes_accepted ↦
            skip-LeavesOthers id token "SKIPPED_ALREADY_ACCEPTED" now later (ground arith)
        | inr moved_on ↦
            skip_to_review-LeavesOthers id token message_id thread_id
              "SKIPPED_CONCURRENT_BUSINESS_DECISION" now later (ground arith)
      ]
    ]

-- The transaction that is rolled back leaves the database as it was.
accept_transaction-lost :
    (id token message_id case_id : ℕ) (c : RenewalCase) (now : ℕ) (db : Db) {after : Db}
    → accept_transaction id token message_id case_id c now db ≡ ok (after, ownership_lost)
    → after ≡ db
unfolding accept_transaction
accept_transaction-lost id token message_id case_id c now db e = ground arith

-- The cases and the settled messages are those of the database at the transaction, or at what
-- followed its rollback; and where the lease was lost, all is as it was.
abbrev pub LeavesEither : Db → Db → Db → RoutingOutcome → Type 0
LeavesEither db later db' o =
    (LeavesOthers db db' ⊎ LeavesOthers later db') × ((db' ≡ db) ⊎ (o ≢ conflict))

accept_case-LeavesEither :
    (id token classification_id message_id thread_id case_id : ℕ) (c : RenewalCase) (now : ℕ)
    (seen db later : Db) {db' : Db} {o : RoutingOutcome}
    → accept_case id token classification_id message_id thread_id case_id c now seen db later
      ≡ ok (db', o)
    → o ≢ succeeded
    → LeavesEither db later db' o
unfolding accept_case
accept_case-LeavesEither id token classification_id message_id thread_id case_id c now seen db later
      {db'} {o} e other =
    elim (Bool-cases (same c.status RenewalCaseStatus.accepted)) [
      | inl done_already ↦
          from_db (skip-LeavesOthers id token "SKIPPED_ALREADY_ACCEPTED" now db (ground arith))
      | inr undecided ↦ elim (Bool-cases (is_legal c.status RenewalCaseStatus.accepted)) [
        | inr illegal ↦ from_db (
            skip_to_review-LeavesOthers id token message_id thread_id
              "SKIPPED_CONCURRENT_BUSINESS_DECISION" now db (ground arith))
        | inl legal ↦
            elim (Bool-cases (
              is_some (
                find_first
                  (λ (x : ClassificationReview). x.ai_classification_id == classification_id)
                  seen.reviews))) [
                    | inl reviewed ↦ from_db (
                        skip-LeavesOthers id token "SKIPPED_HUMAN_ALREADY_REVIEWED" now db
                          (ground arith))
                    | inr unreviewed ↦
                        go undecided legal unreviewed
                          (accept_transaction id token message_id case_id c now db) refl
                  ]
      ]
    ]
  where
    from_db : LeavesOthers db db' × (o ≡ skipped) → LeavesEither db later db' o
    from_db (l, s) = (inl l, settle o (λ k. cc))

    from_later : LeavesOthers later db' × (o ≡ skipped) → LeavesEither db later db' o
    from_later (l, s) = (inr l, settle o (λ k. cc))

    go :
        same c.status RenewalCaseStatus.accepted ≡ false
        → is_legal c.status RenewalCaseStatus.accepted ≡ true
        → is_some (
            find_first
              (λ (x : ClassificationReview). x.ai_classification_id == classification_id)
              seen.reviews)
          ≡ false
        → (t : Result (Db × Accepting))
        → accept_transaction id token message_id case_id c now db ≡ t
        → LeavesEither db later db' o
    go a b d (throw x) q = ground arith
    go a b d (ok (after, accepted)) q = absurd (other (ground arith))
    go a b d (ok (after, email_message_changed)) q =
        from_later
          (skip-LeavesOthers id token "SKIPPED_HUMAN_ALREADY_REVIEWED" now later (ground arith))
    go a b d (ok (after, case_changed)) q = from_later (
        resolve_case_changed-LeavesOthers id token message_id thread_id case_id now later
          (ground arith))
    go a b d (ok (after, ownership_lost)) q =
        let kept = accept_transaction-lost id token message_id case_id c now db q in
        let same_db : db' ≡ db = ground arith in
        (inl (rw same_db (LeavesOthers-refl db)), inl same_db)

-- An automatic acceptance that does not report success never touches a case, and takes back no
-- message that is settled; if the lease of the decision is lost, nothing is written.
pub execute_auto_accept-LeavesEither :
    (id : ℕ) (decision : RoutingDecision) (token now : ℕ) (seen db later : Db) {db' : Db}
    {o : RoutingOutcome}
    → execute_auto_accept id decision token now seen db later ≡ ok (db', o)
    → o ≢ succeeded
    → LeavesEither db later db' o
unfolding execute_auto_accept
execute_auto_accept-LeavesEither id decision token now seen db later {db'} {o} e other =
    elim (Option-cases (find decision.ai_classification_id seen.classifications)) [
      | inl none_there ↦ ground arith
      | inr (k, by) ↦ elim (Option-cases (find k.email_message_id seen.messages)) [
        | inl no_message ↦ ground arith
        | inr (m, said) ↦
            elim (Bool-cases
              (not (is_inbound m) || (k.requires_human_review || not (is_acceptance k.intent)))) [
                | inl wrong ↦ (
                  inl (LeavesOthers-same (LeavesOthers-refl db) (ground arith) (ground arith)),
                  settle o (λ x. ground arith),
                )
                | inr right ↦
                    elim (Bool-cases (
                      is_id (latest k.email_message_id none seen.classifications)
                        decision.ai_classification_id)) [
                          | inr superseded ↦ from_db (
                              skip-LeavesOthers id token "SKIPPED_CLASSIFICATION_SUPERSEDED" now db
                                (ground arith))
                          | inl newest ↦ elim (Option-cases (case_at m.renewal_case_id seen)) [
                            | inl no_case ↦ from_db (
                                skip_to_review-LeavesOthers id token k.email_message_id m.thread_id
                                  "SKIPPED_NO_RENEWAL_CASE" now db (ground arith))
                            | inr ((case_id, c), there) ↦
                                accept_case-LeavesEither id token decision.ai_classification_id
                                  k.email_message_id m.thread_id case_id c now seen db later
                                  (ground arith) other
                          ]
                        ]
              ]
      ]
    ]
  where
    from_db : LeavesOthers db db' × (o ≡ skipped) → LeavesEither db later db' o
    from_db (l, s) = (inl l, settle o (λ k. cc))
