-- ===== src/Mail/ThreadUse.antt =====
-- apps/api/src/modules/mail/mail-inbound-correlation.service.ts: what is written to a thread,
-- old or new (`useExistingThread`, `createGeneralThread`).
use crm_nusrv.Base.{
  ℕ, Bool, true, false, not, ◌||◌, Option, none, some, String, create, update_many, ◌==◌, ltb,
  is_empty, if◌then◌else◌,
}
use crm_nusrv.Base.Results.{Result, ok, find_or_throw, ◌>>=◌}
use crm_nusrv.Store.{Db}
use crm_nusrv.Store.Enums.{ClassificationStatus, ThreadStatus}
use crm_nusrv.Store.Rows.{Thread, RenewalCase}
use crm_nusrv.Renewal.Cases.{terminal_statuses}
use crm_nusrv.Renewal.Transition.{includes}
use crm_nusrv.Mail.Sender.{SenderResolution, unique, unattributed, resolve_sender_customer}

pub record CorrelationOutcome : Type 0 where
  pub thread_id : ℕ
  pub customer_id : Option ℕ
  pub renewal_case_id : Option ℕ
  pub classification_status : ClassificationStatus

pub record CorrelationParams : Type 0 where
  pub mail_configuration_id : ℕ
  pub from_address : Option String
  pub subject : String
  pub occurred_at : ℕ
  pub in_reply_to_header : Option String
  pub references_header : Option String
  pub renewal_case_id_header : Option String

abbrev pub is_resolved : ThreadStatus → Bool
is_resolved ThreadStatus.resolved = true
is_resolved _ = false

abbrev pub with_status : ThreadStatus → Thread → Thread
with_status status t = record t { status = status }

-- `thread.update({ where: { id }, data })`
abbrev pub update_thread : ℕ → (Thread → Thread) → Db → Db
update_thread id f db = record db { threads = update_many id (λ _. true) f db.threads }

abbrev pub create_general_thread :
    CorrelationParams
    → ℕ
    → Option ℕ
    → ThreadStatus
    → ClassificationStatus
    → Db
    → Db × CorrelationOutcome
create_general_thread params fresh customer_id thread_status classification_status db = (
  record db {
    threads =
        create fresh
          (record {
            renewal_case_id = none;
            customer_id = customer_id;
            mail_configuration_id = params.mail_configuration_id;
            subject = params.subject;
            status = thread_status;
            last_message_at = params.occurred_at;
          })
          db.threads;
  },
  record {
    thread_id = fresh;
    customer_id = customer_id;
    renewal_case_id = none;
    classification_status = classification_status;
  },
)

-- `params.fromAddress ? resolveSenderCustomer(...) : { outcome: 'unattributed' }`
abbrev pub sender_of : Option String → Db → Result SenderResolution
sender_of none db = ok unattributed
sender_of (some address) db =
    if is_empty address then ok unattributed else resolve_sender_customer address db

abbrev pub is_other : ℕ → SenderResolution → Bool
is_other customer_id (unique k _ _) = not (k == customer_id)
is_other customer_id _ = false

-- Whether the sender is known to be another customer than the thread's.
abbrev pub conflicts : Option ℕ → Option String → Db → Result Bool
conflicts none from_address db = ok false
conflicts (some customer_id) from_address db = do
  sender ← sender_of from_address db
  ok (is_other customer_id sender)

abbrev pub is_terminal_case : RenewalCase → Bool
is_terminal_case c = includes c.status terminal_statuses

abbrev pub is_closed_case : Option ℕ → Db → Result Bool
is_closed_case none db = ok false
is_closed_case (some k) db = do
  renewal_case ← find_or_throw k db.renewal_cases
  ok (is_terminal_case renewal_case)

abbrev pub next_status : Bool → ThreadStatus → ThreadStatus
next_status true status = ThreadStatus.human_review
next_status false status = if is_resolved status then ThreadStatus.open_thread else status

abbrev pub for_review : Bool → ClassificationStatus
for_review true = ClassificationStatus.human_review
for_review false = ClassificationStatus.pending

-- `monotonicLastMessageAt`
abbrev pub later_of : ℕ → ℕ → ℕ
later_of occurred_at current = if ltb current occurred_at then occurred_at else current

abbrev pub received : Bool → ℕ → Thread → Thread
received escalate occurred_at t = record t {
  status = next_status escalate t.status;
  last_message_at = later_of occurred_at t.last_message_at;
}

-- `useExistingThread`, for one thread
unfoldable pub use_thread : ℕ → CorrelationParams → Db → Result (Db × CorrelationOutcome)
use_thread thread_id params db = do
  t ← find_or_throw thread_id db.threads
  conflict ← conflicts t.customer_id params.from_address db
  closed ← is_closed_case t.renewal_case_id db
  let escalate = conflict || closed
  ok (
    update_thread thread_id (received escalate params.occurred_at) db,
    record {
      thread_id = thread_id;
      customer_id = t.customer_id;
      renewal_case_id = t.renewal_case_id;
      classification_status = for_review escalate;
    },
  )
