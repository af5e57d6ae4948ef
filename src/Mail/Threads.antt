-- ===== src/Mail/Threads.antt =====
-- apps/api/src/modules/mail/mail-thread-resolution.service.ts: the one thread of a renewal case.
use crm_nusrv.Base.{ℕ, Bool, false, Option, none, some, String, Table, find_first, create, ◌==◌}
use crm_nusrv.Store.{Db}
use crm_nusrv.Store.Enums.{ThreadStatus}
use crm_nusrv.Store.Rows.{Thread}

abbrev pub is_thread_of : ℕ → Thread → Bool
is_thread_of case_id t = elim t.renewal_case_id [ none ↦ false | some k ↦ k == case_id ]

-- `communicationThread.findUnique({ where: { renewalCaseId } })`
abbrev pub thread_of : ℕ → Table Thread → Option (ℕ × Thread)
thread_of case_id threads = find_first (is_thread_of case_id) threads

-- The argument of `resolveOrCreate`.
pub record ThreadParams : Type 0 where
  pub renewal_case_id : ℕ
  pub customer_id : Option ℕ
  pub mail_configuration_id : ℕ
  pub subject : String
  pub occurred_at : ℕ

abbrev pub new_thread : ThreadParams → Thread
new_thread params = record {
  renewal_case_id = some params.renewal_case_id;
  customer_id = params.customer_id;
  mail_configuration_id = params.mail_configuration_id;
  subject = params.subject;
  status = ThreadStatus.open_thread;
  last_message_at = params.occurred_at;
}

-- `resolveOrCreate`: the case's thread, with its id. Its recovery from a unique violation reads the
-- winner's thread, as the first lookup does where statements are atomic.
unfoldable pub resolve_or_create : ThreadParams → ℕ → Db → Db × (ℕ × Thread)
resolve_or_create params thread_id db = elim (thread_of params.renewal_case_id db.threads) [
  | some found ↦ (db, found)
  | none ↦ (
    record db { threads = create thread_id (new_thread params) db.threads },
    (thread_id, new_thread params),
  )
]
