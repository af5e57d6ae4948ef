-- ===== src/Renewal/Engine.antt =====
-- apps/api/src/modules/renewal-cases/renewal-engine.service.ts: how the engine opens a case, queues a
-- message and keeps a decision, each at most once. The hash of an idempotency key is a parameter.
pub mod Once
use crm_nusrv.Base.{
  ℕ, suc, Bool, true, false, ◌&&◌, Option, none, some, String, List, [], ◌∷◌, ◌++◌, Table, find,
  find_first, matches, update_many, create, leb, ◌==◌, str_eq, is_some, lower, trimmed,
  if◌then◌else◌,
}
use Prim.Native.Char.{Char, code}
use Prim.Native.String
use crm_nusrv.Store.{Db}
use crm_nusrv.Store.Enums.{
  RenewalCaseStatus, CustomerDecision, ActorType, ReminderAudience, OutboxStatus, DecisionOutcome,
}
use crm_nusrv.Store.Rows.{RenewalCase, Subscription, Outbox, EvaluationDecision, AuditEvent}
use crm_nusrv.Renewal.Transition.{same}

-- A new primary key, as a random UUID gives one.
unfoldable pub next_id {ℓ} : {A : Type ℓ} → Table A → ℕ
next_id [] = 0
next_id ((k, _) ∷ t) = let rest = next_id t in if leb rest k then suc k else rest

abbrev pub actor_type_of : Option ℕ → ActorType
actor_type_of none = ActorType.system
actor_type_of (some _) = ActorType.user

abbrev pub engine_event : Option ℕ → String → String → ℕ → AuditEvent
engine_event actor_id key subject id = record {
  actor_type = actor_type_of actor_id;
  actor_id = actor_id;
  event_key = key;
  subject_type = subject;
  subject_id = id;
}

abbrev pub note : AuditEvent → Db → Db
note e db = record db { audit = db.audit ++ e ∷ [] }

abbrev pub new_case : ℕ → Subscription → ℕ → RenewalCase
new_case subscription_id s as_of = record {
  subscription_id = subscription_id;
  due_date = s.renewal_date;
  status = RenewalCaseStatus.upcoming;
  customer_decision = CustomerDecision.undecided;
  accepted_at = none;
  do_not_renew_at = none;
  fulfilled_at = none;
  last_evaluated_at = some as_of;
}

-- The unique key `subscriptionId_dueDate`
abbrev pub is_cycle : ℕ → ℕ → RenewalCase → Bool
is_cycle subscription_id due c = c.subscription_id == subscription_id && c.due_date == due

-- `ensureCase`: the id of the case, and whether it is new.
unfoldable pub ensure_case : ℕ → Subscription → Option ℕ → ℕ → Db → Db × (ℕ × Bool)
ensure_case subscription_id s actor_id as_of db =
    elim (find_first (is_cycle subscription_id s.renewal_date) db.renewal_cases) [
      | some (k, _) ↦ (db, (k, false))
      | none ↦
          let id = next_id db.renewal_cases in
          (
            note (engine_event actor_id "renewal.case.created" "RenewalCase" id) (record db {
              renewal_cases = create id (new_case subscription_id s as_of) db.renewal_cases;
            }),
            (id, true),
          )
    ]

-- `recipient.trim().toLowerCase()`
unfoldable pub normalized : String → String
normalized s = lower (trimmed s)

abbrev pub has_key : String → Outbox → Bool
has_key key row = str_eq row.idempotency_key key

abbrev pub has_decision_key : String → EvaluationDecision → Bool
has_decision_key key d = str_eq d.decision_key key

abbrev pub decision_event : DecisionOutcome → String
decision_event DecisionOutcome.skipped_hold = "renewal.reminder.skipped.hold"
decision_event DecisionOutcome.skipped_ineligible = "renewal.reminder.skipped.ineligible"
decision_event DecisionOutcome.duplicate_prevented = "renewal.reminder.duplicate_prevented"

abbrev pub is_upcoming : RenewalCase → Bool
is_upcoming c = same c.status RenewalCaseStatus.upcoming

abbrev pub to_reminder_cycle : RenewalCase → RenewalCase
to_reminder_cycle c = record c { status = RenewalCaseStatus.reminder_cycle }

-- The argument of `queueOutbox`.
pub record QueueInput : Type 0 where
  pub customer_id : ℕ
  pub subscription_id : ℕ
  pub renewal_case_id : ℕ
  pub audience : ReminderAudience
  pub recipient : String
  pub subject : String
  pub body : String
  pub days_before_due : ℕ
  pub notification_rule_id : Option ℕ
  pub idempotency_parts : List String
  pub as_of : ℕ
  pub actor_id : Option ℕ

abbrev pub queued_row : String → QueueInput → Outbox
queued_row key input = record {
  customer_id = input.customer_id;
  subscription_id = input.subscription_id;
  renewal_case_id = input.renewal_case_id;
  notification_rule_id = input.notification_rule_id;
  audience = input.audience;
  recipient = normalized input.recipient;
  subject = input.subject;
  body = input.body;
  status = OutboxStatus.queued;
  scheduled_at = input.as_of;
  attempts = 0;
  last_attempt_at = none;
  last_error = none;
  idempotency_key = key;
  email_message_id = none;
  message_id_header = none;
}

abbrev queued_event : ReminderAudience → String
queued_event ReminderAudience.customer = "renewal.reminder.queued"
queued_event ReminderAudience.internal = "renewal.internal_escalation.queued"

-- The write to the case, which only a reminder to the customer makes.
abbrev pub cases_after : ReminderAudience → ℕ → Table RenewalCase → Table RenewalCase
cases_after ReminderAudience.customer case_id cases =
    update_many case_id is_upcoming to_reminder_cycle cases
cases_after ReminderAudience.internal case_id cases = cases

abbrev joined : List String → String
joined [] = ""
joined (a ∷ []) = a
joined (a ∷ b ∷ l) = String.◌++◌ a (String.◌++◌ "|" (joined (b ∷ l)))

module _ (sha256 : String → String) where
  -- `idempotencyKey`
  abbrev pub key_of : List String → String
  key_of parts = String.◌++◌ "renewal:" (sha256 (joined parts))

  -- `recordDecision`, for the parts of its key: whether it was kept.
  unfoldable pub record_decision : ℕ → List String → DecisionOutcome → ℕ → Option ℕ → Db → Db × Bool
  record_decision case_id parts outcome days_before_due actor_id db =
      if is_some (find_first (has_decision_key (key_of parts)) db.decisions) then (db, false) else (
        note
            (engine_event actor_id (decision_event outcome) "RenewalEvaluationDecision"
              (next_id db.decisions))
            (record db {
              decisions =
                  create (next_id db.decisions)
                    (record {
                      renewal_case_id = case_id;
                      decision_key = key_of parts;
                      outcome = outcome;
                      days_before_due = days_before_due;
                    })
                    db.decisions;
            }),
        true,
      )

  -- `queueOutbox`, with the text of the case's id: whether the message was queued.
  unfoldable pub queue_outbox : QueueInput → String → Db → Db × Bool
  queue_outbox input case_text db =
      let key = key_of input.idempotency_parts in
      if is_some (find_first (has_key key) db.outbox)
      then (
        (record_decision input.renewal_case_id (case_text ∷ String.◌++◌ "duplicate:" key ∷ [])
            DecisionOutcome.duplicate_prevented input.days_before_due input.actor_id db).0,
        false,
      )
      else (
        record (note
            (engine_event input.actor_id (queued_event input.audience) "CommunicationOutbox"
              (next_id db.outbox))
            (note
              (engine_event input.actor_id "renewal.reminder.evaluated" "RenewalCase"
                input.renewal_case_id)
              db)) {
                outbox = create (next_id db.outbox) (queued_row key input) db.outbox;
                renewal_cases = cases_after input.audience input.renewal_case_id db.renewal_cases;
              },
        true,
      )
