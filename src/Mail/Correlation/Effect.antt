-- ===== src/Mail/Correlation/Effect.antt =====
-- What the correlation of a message writes: one thread, and of an older thread only its status and
-- the time of its last message.
use crm_nusrv.Base.{
  ℕ, ◌≤◌, ◌≡◌, refl, ◌∙◌, ap, Bool, true, false, ◌||◌, none, some, find, create, arith, ◌==◌,
  find-update_many, find-create,
}
use crm_nusrv.Base.Results.{ok, find_or_throw, answer-chain, find_or_throw-eq-ok}
use crm_nusrv.Store.{Db}
use crm_nusrv.Store.Enums.{ClassificationStatus}
use crm_nusrv.Store.Rows.{Thread}
use crm_nusrv.Mail.ThreadUse.{
  CorrelationParams, CorrelationOutcome, use_thread, conflicts, is_closed_case, received,
  update_thread, for_review,
}

-- The other columns of a thread are kept, and the time of its last message does not go back.
pub record IsKept (before after : Thread) : Type 0 where
  pub customer : after.customer_id ≡ before.customer_id
  pub case : after.renewal_case_id ≡ before.renewal_case_id
  pub mailbox : after.mail_configuration_id ≡ before.mail_configuration_id
  pub subject : after.subject ≡ before.subject
  pub later : before.last_message_at ≤ after.last_message_at

-- Only the thread of the outcome is written, and the outcome tells what stands in it.
pub record IsPlaced (db after : Db) (outcome : CorrelationOutcome) : Type 0 where
  pub rest : after ≡ record db { threads = after.threads }
  pub others : (k : ℕ) → (outcome.thread_id == k) ≡ false → find k after.threads ≡ find k db.threads
  pub placed : Thread
  pub stored : find outcome.thread_id after.threads ≡ some placed
  pub customer : outcome.customer_id ≡ placed.customer_id
  pub case : outcome.renewal_case_id ≡ placed.renewal_case_id
  pub kept : (t : Thread) → find outcome.thread_id db.threads ≡ some t → IsKept t placed

-- What the use of a thread rests on.
pub record IsUse (thread_id : ℕ) (params : CorrelationParams) (db after : Db)
    (outcome : CorrelationOutcome) : Type 0 where
  pub old : Thread
  pub found : find thread_id db.threads ≡ some old
  pub conflict : Bool
  pub closed : Bool
  pub asked : conflicts old.customer_id params.from_address db ≡ ok conflict
  pub looked : is_closed_case old.renewal_case_id db ≡ ok closed
  pub written :
      after ≡ update_thread thread_id (received (conflict || closed) params.occurred_at) db
  pub told : outcome ≡ record {
    thread_id = thread_id;
    customer_id = old.customer_id;
    renewal_case_id = old.renewal_case_id;
    classification_status = for_review (conflict || closed);
  }

pub use_thread-IsUse :
    (thread_id : ℕ) (params : CorrelationParams) (db : Db) {after : Db}
    {outcome : CorrelationOutcome}
    → use_thread thread_id params db ≡ ok (after, outcome)
    → IsUse thread_id params db after outcome
unfolding use_thread
use_thread-IsUse thread_id params db h =
    let (t, found, h1) = answer-chain _ (find_or_throw thread_id db.threads) h in
    let (conflict, asked, h2) =
      answer-chain _ (conflicts t.customer_id params.from_address db) h1 in
    let (closed, looked, h3) = answer-chain _ (is_closed_case t.renewal_case_id db) h2 in
    record {
      old = t;
      found = find_or_throw-eq-ok thread_id db.threads found;
      conflict = conflict;
      closed = closed;
      asked = asked;
      looked = looked;
      written = cc;
      told = cc;
    }

abbrev pub told : ℕ → Thread → ClassificationStatus → CorrelationOutcome
told thread_id t status = record {
  thread_id = thread_id;
  customer_id = t.customer_id;
  renewal_case_id = t.renewal_case_id;
  classification_status = status;
}

pub updated-IsPlaced :
    (thread_id : ℕ) (f : Thread → Thread) (db : Db) (t : Thread) (status : ClassificationStatus)
    → find thread_id db.threads ≡ some t
    → IsKept t (f t)
    → IsPlaced db (update_thread thread_id f db) (told thread_id (f t) status)
updated-IsPlaced thread_id f db t status found kept = record {
  rest = refl;
  others = λ k apart. ground (arith, find-update_many k thread_id (λ _. true) f db.threads);
  placed = f t;
  stored = ground (arith, find-update_many thread_id thread_id (λ _. true) f db.threads);
  customer = refl;
  case = refl;
  kept = λ t' found'. let same : t ≡ t' = cc in rw (← same) kept;
}

pub created-IsPlaced :
    (fresh : ℕ) (db : Db) (t : Thread) (status : ClassificationStatus)
    → find fresh db.threads ≡ none
    → IsPlaced db (record db { threads = create fresh t db.threads }) (told fresh t status)
created-IsPlaced fresh db t status unused = record {
  rest = refl;
  others = λ k apart. ground (arith, find-create k fresh t db.threads, find k db.threads);
  placed = t;
  stored = ground (arith, find-create fresh fresh t db.threads);
  customer = refl;
  case = refl;
  kept = λ t' found. absurd (cc);
}

received-IsKept :
    (escalate : Bool) (occurred_at : ℕ) (t : Thread) → IsKept t (received escalate occurred_at t)
received-IsKept escalate occurred_at t = record {
  customer = refl;
  case = refl;
  mailbox = refl;
  subject = refl;
  later = ground arith;
}

IsKept-trans : {a b c : Thread} → IsKept a b → IsKept b c → IsKept a c
IsKept-trans k l = record {
  customer = l.customer ∙ k.customer;
  case = l.case ∙ k.case;
  mailbox = l.mailbox ∙ k.mailbox;
  subject = l.subject ∙ k.subject;
  later = omega (arith, k.later, l.later);
}

pub IsPlaced-trans :
    {db mid after : Db} {o o' : CorrelationOutcome}
    → o'.thread_id ≡ o.thread_id
    → IsPlaced db mid o
    → IsPlaced mid after o'
    → IsPlaced db after o'
IsPlaced-trans {db} {mid} {after} {o} {o'} same p q = record {
  rest = q.rest ∙ ap (λ (d : Db). record d { threads = after.threads }) p.rest;
  others = λ k apart. q.others k apart ∙ p.others k (rw (← same) apart);
  placed = q.placed;
  stored = q.stored;
  customer = q.customer;
  case = q.case;
  kept =
      λ t found. IsKept-trans (p.kept t (rw (← same) found)) (q.kept p.placed (rw same p.stored));
}

pub IsUse-IsPlaced :
    {thread_id : ℕ} {params : CorrelationParams} {db after : Db} {outcome : CorrelationOutcome}
    → IsUse thread_id params db after outcome
    → IsPlaced db after outcome
IsUse-IsPlaced {thread_id} {params} {db} u = rw u.written (
    rw u.told (
      updated-IsPlaced thread_id (received (u.conflict || u.closed) params.occurred_at) db u.old _
        u.found (received-IsKept (u.conflict || u.closed) params.occurred_at u.old)))
