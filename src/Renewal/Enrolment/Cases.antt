-- ===== src/Renewal/Enrolment/Cases.antt =====
-- Every row that was enrolled has its case.
use crm_nusrv.Base.{
  ℕ, ◌≡◌, Bool, true, Option, List, [], ◌∷◌, Table, All, find_first, create, is_some, arith,
}
use crm_nusrv.Store.{Db}
use crm_nusrv.Store.Rows.{RenewalCase, Subscription}
use crm_nusrv.Renewal.Engine.{ensure_case, is_cycle, next_id, new_case}
use crm_nusrv.Renewal.Enrolment.{Row, Enrolled, enrol_one, enrol_all}

-- The row's subscription has a case for its due date.
abbrev pub HasCase : Db → Row → Type 0
HasCase db (k, s) = is_some (find_first (is_cycle k s.renewal_date) db.renewal_cases) ≡ true

module _ (p : RenewalCase → Bool) (k : ℕ) (a : RenewalCase) where
  create-old :
      (t : Table RenewalCase)
      → is_some (find_first p t) ≡ true
      → is_some (find_first p (create k a t)) ≡ true
  create-old [] h = ground arith
  create-old ((j, b) ∷ t) h = ground (arith, create-old t)

  create-this : (t : Table RenewalCase) → p a ≡ true → is_some (find_first p (create k a t)) ≡ true
  create-this [] h = ground arith
  create-this ((j, b) ∷ t) h = ground (arith, create-this t h)

ensure_case-HasCase :
    (k : ℕ) (s : Subscription) (actor_id : Option ℕ) (as_of : ℕ) (db : Db)
    → HasCase (ensure_case k s actor_id as_of db).0 (k, s)
unfolding ensure_case
ensure_case-HasCase k s actor_id as_of db = ground (
  arith,
  create-this (is_cycle k s.renewal_date) (next_id db.renewal_cases) (new_case k s as_of)
      db.renewal_cases,
)

ensure_case-old :
    (k : ℕ) (s : Subscription) (actor_id : Option ℕ) (as_of : ℕ) (db : Db) (r : Row)
    → HasCase db r
    → HasCase (ensure_case k s actor_id as_of db).0 r
unfolding ensure_case
ensure_case-old k s actor_id as_of db r h = ground (
  arith,
  create-old (is_cycle r.0 r.1.renewal_date) (next_id db.renewal_cases) (new_case k s as_of)
      db.renewal_cases h,
)

module _ (size cutoff as_of : ℕ) (actor_id : Option ℕ) where
  enrol_all-old :
      (rows : List Row) (e : Enrolled) (r : Row)
      → HasCase e.db r
      → HasCase (enrol_all size cutoff as_of actor_id rows e).db r
  unfolding enrol_all
  enrol_all-old [] e r h = h
  enrol_all-old ((k, s) ∷ rows) e r h =
      enrol_all-old rows (enrol_one size cutoff as_of actor_id (k, s) e) r
        (ensure_case-old k s actor_id as_of e.db r h)

  pub enrol_all-HasCase :
      (rows : List Row) (e : Enrolled)
      → All (HasCase (enrol_all size cutoff as_of actor_id rows e).db) rows
  unfolding enrol_all
  enrol_all-HasCase [] e = tt
  enrol_all-HasCase ((k, s) ∷ rows) e =
      let after = enrol_one size cutoff as_of actor_id (k, s) e in
      (
        enrol_all-old rows after (k, s) (ensure_case-HasCase k s actor_id as_of e.db),
        enrol_all-HasCase rows after,
      )
