-- ===== src/Renewal/Enrolment.antt =====
-- `enrollOverdueSubscriptions` of renewal-engine.service.ts: a case for every overdue subscription, a
-- page of them at a time. The size of a page is a parameter here, 500 in the code.
pub mod Pages
pub mod Cases
pub mod Visits
use crm_nusrv.Base.{
  ℕ, zero, suc, ◌+◌, Bool, true, false, ◌&&◌, Option, none, some, List, [], ◌∷◌, Table, find,
  filter, take, length, leb, ltb, if◌then◌else◌,
}
use crm_nusrv.Store.{Db}
use crm_nusrv.Store.Enums.{is_active_customer, is_active_subscription}
use crm_nusrv.Store.Rows.{Subscription, Customer}
use crm_nusrv.Renewal.Engine.{ensure_case}

abbrev pub Row : Type 0
Row = ℕ × Subscription

abbrev is_active_owner : Option Customer → Bool
is_active_owner none = false
is_active_owner (some c) = is_active_customer c.status

abbrev pub is_overdue : ℕ → Table Customer → Row → Bool
is_overdue cutoff customers (_, s) =
    is_active_subscription s.status
    && (is_active_owner (find s.customer_id customers) && ltb s.renewal_date cutoff)

unfoldable pub insert_by_id : Row → List Row → List Row
insert_by_id r [] = r ∷ []
insert_by_id r (x ∷ l) = let rest = insert_by_id r l in if leb r.0 x.0 then r ∷ x ∷ l else x ∷ rest

-- `orderBy: { id: 'asc' }`
unfoldable pub by_id : List Row → List Row
by_id [] = []
by_id (r ∷ l) = insert_by_id r (by_id l)

unfoldable pub overdue : ℕ → Db → List Row
overdue cutoff db = by_id (filter (is_overdue cutoff db.customers) db.subscriptions)

-- `skip: 1, cursor: { id }`: the rows after the one that the cursor names
abbrev pub past_cursor : Option ℕ → List Row → List Row
past_cursor none rows = rows
past_cursor (some k) rows = filter (λ r. ltb k r.0) rows

abbrev pub last_id : Option ℕ → List Row → Option ℕ
last_id k [] = k
last_id k (r ∷ l) = last_id (some r.0) l

-- The database with the counters of the loop.
pub record Enrolled : Type 0 where
  pub db : Db
  pub scanned : ℕ
  pub cases_created : ℕ

abbrev pub counted_case : Bool → ℕ → ℕ
counted_case true n = suc n
counted_case false n = n

module _ (size : ℕ) (cutoff as_of : ℕ) (actor_id : Option ℕ) where
  abbrev pub enrol_one : Row → Enrolled → Enrolled
  enrol_one (k, s) e =
      let (db, (_, created)) = ensure_case k s actor_id as_of e.db in
      record {
        db = db;
        scanned = suc e.scanned;
        cases_created = counted_case created e.cases_created;
      }

  unfoldable pub enrol_all : List Row → Enrolled → Enrolled
  enrol_all [] e = e
  enrol_all (r ∷ l) e = enrol_all l (enrol_one r e)

  abbrev pub page : Option ℕ → Db → List Row
  page cursor db = take size (past_cursor cursor (overdue cutoff db))

  -- `for (;;)`, on fuel; `none` when it runs out.
  unfoldable pub enrol_pages : ℕ → Option ℕ → Enrolled → Option Enrolled
  enrol_pages zero cursor e = none
  enrol_pages (suc n) cursor e =
      let batch = page cursor e.db in
      let after = enrol_all batch e in
      let rest = enrol_pages n (last_id cursor batch) after in
      if ltb (length batch) size then some after else rest

  -- `enrollOverdueSubscriptions`, with as many pages as there are subscriptions and one more.
  unfoldable pub enroll_overdue : Db → Option Enrolled
  enroll_overdue db =
      enrol_pages (suc (length db.subscriptions)) none
        (record { db = db; scanned = 0; cases_created = 0 })
