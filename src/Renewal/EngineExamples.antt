-- ===== src/Renewal/EngineExamples.antt =====
-- The theorems on the engine's writes, applied to the sample database.
use crm_nusrv.Base.{◌≡◌, String, refl, false, some, none, [], ◌∷◌, find_first, All, length, arith}
use crm_nusrv.Store.{Db}
use crm_nusrv.Store.Enums.{ReminderAudience}
use crm_nusrv.Store.Rows.{RenewalCase}
use crm_nusrv.Store.Samples.{sample_db, sample_subscription, sample_row}
use crm_nusrv.Renewal.Enrolment.{overdue, enrol_all, enroll_overdue}
use crm_nusrv.Renewal.Enrolment.Cases.{HasCase}
use crm_nusrv.Renewal.Enrolment.Visits.{enroll_overdue_visits}
use crm_nusrv.Renewal.Engine.{is_cycle, ensure_case, QueueInput, queue_outbox}
use crm_nusrv.Renewal.Engine.Once.{ensure_case_again, queue_outbox_again}

ensure_case_again_example :
    let (db', (k, created)) = ensure_case 2 sample_subscription none 1000 sample_db in
    ((c : RenewalCase) × (find_first (is_cycle 2 sample_subscription.renewal_date) db'.renewal_cases
        ≡ some (k, c)))
    × (ensure_case 2 sample_subscription (some 7) 2000 db' ≡ (db', (k, false)))
ensure_case_again_example =
    ensure_case_again 2 sample_subscription none (some 7) 1000 2000 sample_db

abbrev digest : String → String
digest s = s

abbrev reminder : QueueInput
reminder = record {
  customer_id = 1;
  subscription_id = 1;
  renewal_case_id = 1;
  audience = ReminderAudience.customer;
  recipient = " Info@Client.sa";
  subject = "Renewal";
  body = "Two weeks left.";
  days_before_due = 14;
  notification_rule_id = none;
  idempotency_parts = "customer" ∷ "1" ∷ "3" ∷ "14" ∷ [];
  as_of = 1000;
  actor_id = none;
}

abbrev by_hand : QueueInput
by_hand = record reminder { actor_id = some 7; as_of = 2000; subject = "Renewal again" }

queue_outbox_again_example :
    let first = (queue_outbox digest reminder "1" sample_db).0 in
    let (db', queued) = queue_outbox digest by_hand "1" first in
    (queued ≡ false) × (db'.outbox ≡ first.outbox) × (db'.renewal_cases ≡ first.renewal_cases)
queue_outbox_again_example = queue_outbox_again digest reminder by_hand "1" "1" sample_db refl

-- The address is trimmed and in lower case.
normalizes :
    (queue_outbox digest reminder "1" sample_db).0.outbox
    ≡ (1, sample_row)
      ∷ (
        2,
        record sample_row {
          idempotency_key = "renewal:customer|1|3|14";
          subject = "Renewal";
          body = "Two weeks left.";
          scheduled_at = 1000;
        },
      )
      ∷ []
unfolding queue_outbox crm_nusrv.Renewal.Engine.next_id crm_nusrv.Renewal.Engine.normalized
normalizes = refl

-- A monthly subscription that was due before the cutoff, and one that is not due yet.
abbrev late_db : Db
late_db = record sample_db {
  subscriptions =
      (2, record sample_subscription { renewal_date = 400 }) ∷ (1, sample_subscription) ∷ [];
}

enroll_overdue_visits_example :
    (enroll_overdue 500 1000 1200 none late_db
      ≡ some (
          enrol_all 500 1000 1200 none
            (overdue 1000 late_db)
            (record { db = late_db; scanned = 0; cases_created = 0 })))
    × ((enrol_all 500 1000 1200 none
          (overdue 1000 late_db)
          (record { db = late_db; scanned = 0; cases_created = 0 })).scanned
        ≡ length (overdue 1000 late_db))
    × All
        (HasCase
          (enrol_all 500 1000 1200 none
            (overdue 1000 late_db)
            (record { db = late_db; scanned = 0; cases_created = 0 })).db)
        (overdue 1000 late_db)
enroll_overdue_visits_example =
    enroll_overdue_visits 499 1000 1200 none late_db (((λ e. ground arith), tt), (tt, tt))
