-- ===== src/Renewal/Engine/Once.antt =====
-- The engine's writes are made at most once, whatever is run again.
use crm_nusrv.Base.{
  ℕ, ◌≡◌, ◌≢◌, inl, inr, refl, Bool, true, false, Option, none, some, String, List, [], ◌∷◌, Table,
  All, find_first, create, arith, str_eq_iff, Bool-cases, Option-cases,
}
use Prim.Native.String
use crm_nusrv.Store.{Db}
use crm_nusrv.Store.Enums.{DecisionOutcome}
use crm_nusrv.Store.Rows.{RenewalCase, Subscription, Outbox}
use crm_nusrv.Renewal.Engine.{
  note, engine_event, next_id, new_case, is_cycle, ensure_case, has_key, QueueInput, queued_row,
  cases_after, key_of, record_decision, queue_outbox,
}

module _ {ℓ} {A : Type ℓ} where
  -- A row that is created last is found if no other is.
  find_first-create :
      (p : A → Bool) (k : ℕ) (a : A) (t : Table A)
      → find_first p t ≡ none
      → p a ≡ true
      → find_first p (create k a t) ≡ some (k, a)
  find_first-create p k a [] e h = ground arith
  find_first-create p k a ((j, b) ∷ t) e h = ground (arith, find_first-create p k a t)

cycle_found :
    (subscription_id as_of : ℕ) (s : Subscription)
    → is_cycle subscription_id s.renewal_date (new_case subscription_id s as_of) ≡ true
cycle_found subscription_id as_of s = ground arith

ensure_case-there :
    (subscription_id : ℕ) (s : Subscription) (actor_id : Option ℕ) (as_of : ℕ) (db : Db) {k : ℕ}
    {c : RenewalCase}
    → find_first (is_cycle subscription_id s.renewal_date) db.renewal_cases ≡ some (k, c)
    → ensure_case subscription_id s actor_id as_of db ≡ (db, (k, false))
unfolding ensure_case
ensure_case-there subscription_id s actor_id as_of db e = rw (e, ensure_case) refl

-- The database with a new case.
abbrev opened : ℕ → Subscription → Option ℕ → ℕ → Db → Db
opened subscription_id s actor_id as_of db =
    note (engine_event actor_id "renewal.case.created" "RenewalCase" (next_id db.renewal_cases))
      (record db {
        renewal_cases =
            create (next_id db.renewal_cases) (new_case subscription_id s as_of) db.renewal_cases;
      })

ensure_case-new :
    (subscription_id : ℕ) (s : Subscription) (actor_id : Option ℕ) (as_of : ℕ) (db : Db)
    → find_first (is_cycle subscription_id s.renewal_date) db.renewal_cases ≡ none
    → ensure_case subscription_id s actor_id as_of db
      ≡ (opened subscription_id s actor_id as_of db, (next_id db.renewal_cases, true))
unfolding ensure_case
ensure_case-new subscription_id s actor_id as_of db e = rw (e, ensure_case) refl

-- Once the case of a subscription's due date is ensured, it is there, and ensuring it again, by
-- whoever and whenever, finds the same case and writes nothing.
pub ensure_case_again :
    (subscription_id : ℕ) (s : Subscription) (actor_id again_by : Option ℕ) (as_of later : ℕ)
    (db : Db)
    → let (db', (k, created)) = ensure_case subscription_id s actor_id as_of db in
      ((c : RenewalCase) × (find_first (is_cycle subscription_id s.renewal_date) db'.renewal_cases
          ≡ some (k, c)))
      × (ensure_case subscription_id s again_by later db' ≡ (db', (k, false)))
unfolding ensure_case
ensure_case_again subscription_id s actor_id again_by as_of later db =
    elim (Option-cases (find_first (is_cycle subscription_id s.renewal_date) db.renewal_cases)) [
      | inr ((k, c), there) ↦
          let same_db = ensure_case-there subscription_id s actor_id as_of db there in
          rw same_db ((c, there), ensure_case-there subscription_id s again_by later db there)
      | inl none_there ↦
          let at =
            find_first-create (is_cycle subscription_id s.renewal_date) (next_id db.renewal_cases)
              (new_case subscription_id s as_of) db.renewal_cases none_there
              (cycle_found subscription_id as_of s) in
          rw (ensure_case-new subscription_id s actor_id as_of db none_there) (
            (new_case subscription_id s as_of, at),
            ensure_case-there subscription_id s again_by later
                (opened subscription_id s actor_id as_of db) at,
          )
    ]

-- No two rows of the outbox have the same key.
abbrev pub KeysApart : Table Outbox → Type 0
KeysApart [] = Unit
KeysApart ((_, row) ∷ t) =
    All (λ (x : ℕ × Outbox). x.1.idempotency_key ≢ row.idempotency_key) t × KeysApart t

All-create :
    (P : ℕ × Outbox → Type 0) (k : ℕ) (row : Outbox) (t : Table Outbox)
    → All P t
    → P (k, row)
    → All P (create k row t)
All-create P k row [] a h = (h, tt)
All-create P k row (x ∷ t) (b, a) h = (b, All-create P k row t a h)

KeysApart-create :
    (key : String) (k : ℕ) (row : Outbox) (t : Table Outbox)
    → find_first (has_key key) t ≡ none
    → row.idempotency_key ≡ key
    → KeysApart t
    → KeysApart (create k row t)
KeysApart-create key k row [] e h a = (tt, tt)
KeysApart-create key k row ((j, b) ∷ t) e h (apart, rest) = elim (Bool-cases (has_key key b)) [
  | inl there ↦ ground arith
  | inr absent ↦ (
    All-create (λ (x : ℕ × Outbox). x.1.idempotency_key ≢ b.idempotency_key) k row t apart
        (λ same_key. ground (arith, str_eq_iff b.idempotency_key key)),
    KeysApart-create key k row t (ground arith) h rest,
  )
]

module _ (sha256 : String → String) where
  outbox-record_decision :
      (case_id : ℕ) (parts : List String) (outcome : DecisionOutcome) (days_before_due : ℕ)
      (actor_id : Option ℕ) (db : Db)
      → let db' = (record_decision sha256 case_id parts outcome days_before_due actor_id db).0 in
        (db'.outbox ≡ db.outbox) × (db'.renewal_cases ≡ db.renewal_cases)
  unfolding record_decision
  outbox-record_decision case_id parts outcome days_before_due actor_id db = ground arith

  -- A message whose key is there is not queued.
  queue_outbox-there :
      (input : QueueInput) (case_text : String) (db : Db) (row : ℕ × Outbox)
      → find_first (has_key (key_of sha256 input.idempotency_parts)) db.outbox ≡ some row
      → let (db', queued) = queue_outbox sha256 input case_text db in
        (queued ≡ false) × (db'.outbox ≡ db.outbox) × (db'.renewal_cases ≡ db.renewal_cases)
  unfolding queue_outbox
  queue_outbox-there input case_text db row e =
      let (o, c) =
        outbox-record_decision input.renewal_case_id
          (case_text ∷ String.◌++◌ "duplicate:" (key_of sha256 input.idempotency_parts) ∷ [])
          DecisionOutcome.duplicate_prevented input.days_before_due input.actor_id db in
      rw e (refl, o, c)

  -- One whose key is not there is queued, and its key is there then.
  queue_outbox-new :
      (input : QueueInput) (case_text : String) (db : Db)
      → find_first (has_key (key_of sha256 input.idempotency_parts)) db.outbox ≡ none
      → let (db', queued) = queue_outbox sha256 input case_text db in
        (queued ≡ true)
        × (db'.outbox
            ≡ create
                (next_id db.outbox)
                (queued_row (key_of sha256 input.idempotency_parts) input)
                db.outbox)
        × (db'.renewal_cases ≡ cases_after input.audience input.renewal_case_id db.renewal_cases)
  unfolding queue_outbox
  queue_outbox-new input case_text db e = rw e (refl, refl, refl)

  queued_found :
      (input : QueueInput)
      → has_key
          (key_of sha256 input.idempotency_parts)
          (queued_row (key_of sha256 input.idempotency_parts) input)
        ≡ true
  queued_found input =
      (str_eq_iff (key_of sha256 input.idempotency_parts) (key_of sha256 input.idempotency_parts)).1
        refl

  -- A message is queued once: a second call with the same parts of the key, whatever else it is
  -- given, is told apart and changes neither the outbox nor a case.
  pub queue_outbox_again :
      (input again : QueueInput) (case_text again_text : String) (db : Db)
      → again.idempotency_parts ≡ input.idempotency_parts
      → let first = (queue_outbox sha256 input case_text db).0 in
        let (db', queued) = queue_outbox sha256 again again_text first in
        (queued ≡ false) × (db'.outbox ≡ first.outbox) × (db'.renewal_cases ≡ first.renewal_cases)
  queue_outbox_again input again case_text again_text db same_parts =
      elim (Option-cases (find_first (has_key (key_of sha256 input.idempotency_parts)) db.outbox)) [
        | inr (row, there) ↦
            let (_, o, _) = queue_outbox-there input case_text db row there in
            queue_outbox-there again again_text (queue_outbox sha256 input case_text db).0 row
              (rw (same_parts, o) there)
        | inl none_there ↦
            let (_, o, _) = queue_outbox-new input case_text db none_there in
            queue_outbox-there again again_text (queue_outbox sha256 input case_text db).0
              (next_id db.outbox, queued_row (key_of sha256 input.idempotency_parts) input)
              (rw (same_parts, o)
                (find_first-create (has_key (key_of sha256 input.idempotency_parts))
                  (next_id db.outbox) (queued_row (key_of sha256 input.idempotency_parts) input)
                  db.outbox none_there (queued_found input)))
      ]

  -- Queueing keeps the keys of the outbox apart.
  pub queue_outbox-KeysApart :
      (input : QueueInput) (case_text : String) (db : Db)
      → KeysApart db.outbox
      → KeysApart (queue_outbox sha256 input case_text db).0.outbox
  queue_outbox-KeysApart input case_text db apart =
      elim (Option-cases (find_first (has_key (key_of sha256 input.idempotency_parts)) db.outbox)) [
        | inr (row, there) ↦ rw (queue_outbox-there input case_text db row there).1 apart
        | inl none_there ↦ rw (queue_outbox-new input case_text db none_there).1 (
            KeysApart-create (key_of sha256 input.idempotency_parts) (next_id db.outbox)
              (queued_row (key_of sha256 input.idempotency_parts) input) db.outbox none_there refl
              apart)
      ]
