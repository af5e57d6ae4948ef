-- ===== src/Mail/Correlation.antt =====
-- apps/api/src/modules/mail/mail-inbound-correlation.service.ts: the thread that an inbound message
-- belongs to. Each call runs in the transaction that stores the message.
pub mod Effect
pub mod Evidence
pub mod ByText
pub mod Outcome
pub mod Named
pub mod Answered
pub mod Configurations
pub mod Justified
use crm_nusrv.Base.{
  ℕ, Bool, true, false, not, ◌&&◌, ◌||◌, Option, none, some, String, List, [], ◌∷◌, ◌++◌, Table,
  find, create, update_many, filter, any, str_eq, ◌==◌, ltb, lower, trimmed, is_empty, is_some,
  if◌then◌else◌,
}
use crm_nusrv.Base.Results.{Result, ok, throw, find_or_throw, ◌>>=◌}
use crm_nusrv.Store.{Db}
use crm_nusrv.Store.Enums.{ClassificationStatus, CustomerStatus, ThreadStatus, RenewalCaseStatus}
use crm_nusrv.Store.Rows.{Thread, EmailMessage, RenewalCase}
use crm_nusrv.Renewal.Cases.{terminal_statuses}
use crm_nusrv.Renewal.Transition.{includes}
use crm_nusrv.Mail.MessageIds.{parse_message_id_tokens, parse_primary_message_id}
use crm_nusrv.Mail.Sender.{
  SenderResolution, unique, unattributed, resolve_sender_customer, distinct,
}
use crm_nusrv.Mail.Threads.{thread_of, resolve_or_create}
use crm_nusrv.Mail.ReplyMatch.{
  HeaderMatch, thread, ambiguous, none_matches, rows, match_by_reply_headers,
}
use crm_nusrv.Mail.ThreadUse.{
  CorrelationOutcome, CorrelationParams, is_resolved, with_status, update_thread,
  create_general_thread, sender_of, is_other, conflicts, is_terminal_case, is_closed_case,
  next_status, for_review, later_of, received, use_thread,
}

-- What comes of the `X-Renewal-Case-Id` header.
pub data CaseHint : Type 0 where
  no_hint reject : CaseHint
  attach : Db → CorrelationOutcome → CaseHint

abbrev pub is_customer : ℕ → SenderResolution → Bool
is_customer customer_id (unique k _ _) = k == customer_id
is_customer customer_id _ = false

-- The case's own thread, made now.
abbrev pub attach_new : ℕ → RenewalCase → ℕ → CorrelationParams → ℕ → Db → CaseHint
attach_new case_id renewal_case customer_id params fresh db =
    let (threaded, (thread_id, t)) =
      resolve_or_create
        (record {
          renewal_case_id = case_id;
          customer_id = some customer_id;
          mail_configuration_id = params.mail_configuration_id;
          subject = params.subject;
          occurred_at = params.occurred_at;
        })
        fresh db in
    let closed = is_terminal_case renewal_case in
    attach
      (if closed
        then update_thread thread_id (with_status ThreadStatus.human_review) threaded
        else threaded)
      (record {
        thread_id = thread_id;
        customer_id = t.customer_id;
        renewal_case_id = t.renewal_case_id;
        classification_status = for_review closed;
      })

abbrev pub attached : Db × CorrelationOutcome → CaseHint
attached (db, outcome) = attach db outcome

abbrev pub attach_to_case :
    ℕ → RenewalCase → ℕ → CorrelationParams → ℕ → Option (ℕ × Thread) → Db → Result CaseHint
attach_to_case case_id renewal_case customer_id params fresh none db =
    ok (attach_new case_id renewal_case customer_id params fresh db)
attach_to_case case_id renewal_case customer_id params fresh (some (k, t)) db =
    if t.mail_configuration_id == params.mail_configuration_id
    then (use_thread k params db >>= λ used. ok (attached used))
    else ok reject

abbrev pub find_by_text : (ℕ → String) → String → Table RenewalCase → Option (ℕ × RenewalCase)
find_by_text id_text text [] = none
find_by_text id_text text ((k, c) ∷ t) =
    if str_eq (id_text k) text then some (k, c) else find_by_text id_text text t

-- `tryRenewalCaseHeader`, for a header that names the case
abbrev pub try_case : Option (ℕ × RenewalCase) → CorrelationParams → ℕ → Db → Result CaseHint
try_case none params fresh db = ok no_hint
try_case (some (case_id, renewal_case)) params fresh db = do
  subscription ← find_or_throw renewal_case.subscription_id db.subscriptions
  sender ← sender_of params.from_address db
  (if is_customer subscription.customer_id sender
      then attach_to_case case_id renewal_case subscription.customer_id params fresh
          (thread_of case_id db.threads) db
      else ok reject)

abbrev is_inactive : CustomerStatus → Bool
is_inactive CustomerStatus.inactive = true
is_inactive CustomerStatus.active = false

abbrev pub thread_status_for : Bool → ThreadStatus
thread_status_for true = ThreadStatus.human_review
thread_status_for false = ThreadStatus.open_thread

abbrev pub general_thread :
    SenderResolution → CorrelationParams → ℕ → Bool → Db → Db × CorrelationOutcome
general_thread (unique customer_id status _) params fresh forced db =
    let review = forced || is_inactive status in
    create_general_thread params fresh (some customer_id) (thread_status_for review)
      (for_review review) db
general_thread _ params fresh forced db =
    create_general_thread params fresh none ThreadStatus.human_review
      ClassificationStatus.human_review db

-- `attributeAndCreateGeneralThread`
unfoldable pub attribute_and_create_general_thread :
    CorrelationParams → ℕ → Bool → Db → Result (Db × CorrelationOutcome)
attribute_and_create_general_thread params fresh forced db = do
  sender ← sender_of params.from_address db
  ok (general_thread sender params fresh forced db)

-- The text of an id, as the header gives it.
module _ (id_text : ℕ → String) where
  abbrev pub hinted : Option String → Db → Option (ℕ × RenewalCase)
  hinted none db = none
  hinted (some header) db =
      let text = trimmed header in
      if is_empty text then none else find_by_text id_text text db.renewal_cases

  -- `tryRenewalCaseHeader`
  unfoldable pub try_renewal_case_header : CorrelationParams → ℕ → Db → Result CaseHint
  try_renewal_case_header params fresh db =
      try_case (hinted params.renewal_case_id_header db) params fresh db

  abbrev pub by_hint : CaseHint → CorrelationParams → ℕ → Db → Result (Db × CorrelationOutcome)
  by_hint no_hint params fresh db = attribute_and_create_general_thread params fresh false db
  by_hint reject params fresh db = attribute_and_create_general_thread params fresh true db
  by_hint (attach after outcome) params fresh db = ok (after, outcome)

  abbrev pub by_match : HeaderMatch → CorrelationParams → ℕ → Db → Result (Db × CorrelationOutcome)
  by_match (thread k) params fresh db = use_thread k params db
  by_match ambiguous params fresh db = ok (
      create_general_thread params fresh none ThreadStatus.human_review
        ClassificationStatus.human_review db)
  by_match none_matches params fresh db = do
    hint ← try_renewal_case_header params fresh db
    by_hint hint params fresh db

  -- `correlate`; `fresh` is the id of the thread that it may create
  unfoldable pub correlate : CorrelationParams → ℕ → Db → Result (Db × CorrelationOutcome)
  correlate params fresh db =
      by_match
        (match_by_reply_headers params.mail_configuration_id
          (parse_primary_message_id params.in_reply_to_header)
          (parse_message_id_tokens params.references_header) db)
        params fresh db
