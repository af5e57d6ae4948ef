-- ===== src/Renewal/Enrolment/Visits.antt =====
-- The pages together are the whole list, each row once.
use crm_nusrv.Base.{
  ℕ, zero, suc, ◌+◌, ◌≤◌, ◌<◌, ◌≡◌, refl, ap, sym, Option, none, some, List, [], ◌∷◌, All, filter,
  take, length, ltb, arith, Bool-cases, inl, inr, ◌∙◌,
}
use crm_nusrv.Store.{Db}
use crm_nusrv.Store.Rows.{Subscription}
use crm_nusrv.Renewal.Engine.{ensure_case}
use crm_nusrv.Renewal.Enrolment.{
  Row, overdue, past_cursor, last_id, Enrolled, enrol_one, enrol_all, enrol_pages, enroll_overdue,
}
use crm_nusrv.Renewal.Enrolment.Cases.{HasCase, enrol_all-HasCase}
use crm_nusrv.Renewal.Enrolment.Pages.{drop, Ascending, Distinct, overdue-Ascending, length-overdue}

filter-above :
    (k : ℕ) (l : List Row) → All (λ (x : Row). k < x.0) l → filter (λ (x : Row). ltb k x.0) l ≡ l
filter-above k [] a = refl
filter-above k (x ∷ l) (h, a) = ground (arith, filter-above k l a)

-- The rows past a cursor, and past a later one.
filter-later :
    (c k : ℕ) (l : List Row)
    → c < k
    → filter (λ (x : Row). ltb k x.0) (filter (λ (x : Row). ltb c x.0) l)
      ≡ filter (λ (x : Row). ltb k x.0) l
filter-later c k [] h = refl
filter-later c k (x ∷ l) h = ground (arith, filter-later c k l h)

All-past : (c : ℕ) (l : List Row) → All (λ (x : Row). c < x.0) (filter (λ (x : Row). ltb c x.0) l)
All-past c [] = tt
All-past c (x ∷ l) = elim (Bool-cases (ltb c x.0)) [
  | inl keep ↦ rw keep (ground arith, All-past c l)
  | inr leave ↦ rw leave (All-past c l)
]

-- A full page: the cursor after it, and what is left.
record Cut (m : ℕ) (rows : List Row) (cursor : Option ℕ) : Type 0 where
  k : ℕ
  last : last_id cursor (take (suc m) rows) ≡ some k
  left : filter (λ (x : Row). ltb k x.0) rows ≡ drop (suc m) rows
  above : (c : ℕ) → All (λ (x : Row). c < x.0) rows → c < k
  sorted : Ascending (drop (suc m) rows)
  shorter : length (drop (suc m) rows) < length rows

full-Cut :
    (m : ℕ) (rows : List Row) (cursor : Option ℕ)
    → Ascending rows
    → suc m ≤ length rows
    → Cut m rows cursor
full-Cut m [] cursor a h = absurd (omega arith)
full-Cut zero (r ∷ l) cursor (n, a) h = record {
  k = r.0;
  last = refl;
  left = ground (arith, filter-above r.0 l n);
  above = λ c (lt, _). lt;
  sorted = a;
  shorter = omega arith;
}
full-Cut (suc m) (r ∷ l) cursor (n, a) h =
    let cut = full-Cut m l (some r.0) a (omega arith) in
    let over = cut.above r.0 n in
    record {
      k = cut.k;
      last = cut.last;
      left = ground (arith, cut.left);
      above = λ c (lt, b). cut.above c b;
      sorted = cut.sorted;
      shorter = omega (arith, cut.shorter);
    }

take-short : (n : ℕ) (rows : List Row) → length (take n rows) < n → take n rows ≡ rows
take-short zero rows h = absurd (omega arith)
take-short (suc n) [] h = refl
take-short (suc n) (x ∷ l) h = ap (λ (t : List Row). x ∷ t) (take-short n l (omega arith))

take-full : (n : ℕ) (rows : List Row) → n ≤ length (take n rows) → n ≤ length rows
take-full zero rows h = omega arith
take-full (suc n) [] h = h
take-full (suc n) (x ∷ l) h = omega (arith, take-full n l)

-- The rows past the cursor of a full page.
past-full :
    (cursor : Option ℕ) (l rows : List Row) (m : ℕ) (cut : Cut m rows cursor)
    → past_cursor cursor l ≡ rows
    → past_cursor (some cut.k) l ≡ drop (suc m) rows
past-full none l rows m cut e = rw e cut.left
past-full (some c) l rows m cut e =
    let lt = cut.above c (rw e at (All-past c l)) in
    sym (filter-later c cut.k l lt) ∙ (rw e cut.left)

ensure_case-keeps :
    (k : ℕ) (s : Subscription) (actor_id : Option ℕ) (as_of : ℕ) (db : Db)
    → let db' = (ensure_case k s actor_id as_of db).0 in
      (db'.subscriptions ≡ db.subscriptions) × (db'.customers ≡ db.customers)
unfolding ensure_case
ensure_case-keeps k s actor_id as_of db = ground arith

module _ (size : ℕ) (cutoff as_of : ℕ) (actor_id : Option ℕ) where
  enrol_all-keeps :
      (rows : List Row) (e : Enrolled)
      → let e' = enrol_all size cutoff as_of actor_id rows e in
        (e'.db.subscriptions ≡ e.db.subscriptions)
        × (e'.db.customers ≡ e.db.customers)
        × (e'.scanned ≡ e.scanned + length rows)
  unfolding enrol_all
  enrol_all-keeps [] e = (refl, refl, omega arith)
  enrol_all-keeps ((k, s) ∷ rows) e =
      let (subs, owners) = ensure_case-keeps k s actor_id as_of e.db in
      let (subs', owners', n) =
        enrol_all-keeps rows (enrol_one size cutoff as_of actor_id (k, s) e) in
      (subs' ∙ subs, owners' ∙ owners, omega (arith, n))

  enrol_all-drop :
      (m : ℕ) (rows : List Row) (e : Enrolled)
      → enrol_all size cutoff as_of actor_id
          (drop m rows)
          (enrol_all size cutoff as_of actor_id (take m rows) e)
        ≡ enrol_all size cutoff as_of actor_id rows e
  unfolding enrol_all
  enrol_all-drop zero rows e = refl
  enrol_all-drop (suc m) [] e = refl
  enrol_all-drop (suc m) (r ∷ rows) e =
      enrol_all-drop m rows (enrol_one size cutoff as_of actor_id r e)

  overdue-same :
      (db db' : Db)
      → db'.subscriptions ≡ db.subscriptions
      → db'.customers ≡ db.customers
      → overdue cutoff db' ≡ overdue cutoff db
  unfolding overdue
  overdue-same db db' s c = rw (s, c) refl

module _ (m : ℕ) (cutoff as_of : ℕ) (actor_id : Option ℕ) where
  -- The loop from any cursor, when there is fuel for the rows that are left.
  enrol_pages-rest :
      (n : ℕ) (cursor : Option ℕ) (e : Enrolled) (rows : List Row)
      → past_cursor cursor (overdue cutoff e.db) ≡ rows
      → Ascending rows
      → length rows < n
      → enrol_pages (suc m) cutoff as_of actor_id n cursor e
        ≡ some (enrol_all (suc m) cutoff as_of actor_id rows e)
  unfolding enrol_pages
  enrol_pages-rest zero cursor e rows at a h = absurd (omega arith)
  enrol_pages-rest (suc n) cursor e rows at a h =
      elim (Bool-cases (ltb (length (take (suc m) rows)) (suc m))) [
        | inl short ↦
            rw (at, short)
              (ap (λ (l : List Row). some (enrol_all (suc m) cutoff as_of actor_id l e))
                (take-short (suc m) rows (ground arith)))
        | inr long ↦
            let cut = full-Cut m rows cursor a (take-full (suc m) rows (ground arith)) in
            let after = enrol_all (suc m) cutoff as_of actor_id (take (suc m) rows) e in
            let (subs, owners, _) =
              enrol_all-keeps (suc m) cutoff as_of actor_id (take (suc m) rows) e in
            let next : past_cursor (some cut.k) (overdue cutoff after.db) ≡ drop (suc m) rows =
              rw (overdue-same (suc m) cutoff as_of actor_id e.db after.db subs owners)
                (past-full cursor (overdue cutoff e.db) rows m cut at) in
            rw (at, long, cut.last)
              (enrol_pages-rest n (some cut.k) after (drop (suc m) rows) next cut.sorted
                  (omega (arith, cut.shorter))
                ∙ ap some (enrol_all-drop (suc m) cutoff as_of actor_id (suc m) rows e))
      ]

  -- The enrolment ends, whatever the size of a page, having ensured the case of every overdue
  -- subscription of an active customer, once and in the order of the ids; its count is their
  -- number, and each of them has its case then.
  pub enroll_overdue_visits :
      (db : Db)
      → Distinct db.subscriptions
      → let all = overdue cutoff db in
        let done =
          enrol_all
            (suc m)
            cutoff
            as_of
            actor_id
            all
            (record { db = db; scanned = 0; cases_created = 0 }) in
        (enroll_overdue (suc m) cutoff as_of actor_id db ≡ some done)
        × (done.scanned ≡ length all)
        × All (HasCase done.db) all
  unfolding enroll_overdue
  enroll_overdue_visits db distinct =
      let none_yet : Enrolled = record { db = db; scanned = 0; cases_created = 0 } in
      let (_, _, n) = enrol_all-keeps (suc m) cutoff as_of actor_id (overdue cutoff db) none_yet in
      (
        enrol_pages-rest (suc (length db.subscriptions)) none none_yet (overdue cutoff db) refl
            (overdue-Ascending cutoff db distinct) (omega (arith, length-overdue cutoff db)),
        omega (arith, n),
        enrol_all-HasCase (suc m) cutoff as_of actor_id (overdue cutoff db) none_yet,
      )
