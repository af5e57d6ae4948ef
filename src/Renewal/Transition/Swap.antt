-- ===== src/Renewal/Transition/Swap.antt =====
-- What the write of a transition does.
use crm_nusrv.Base.{
  if◌then◌else◌, ℕ, ◌≡◌, ◌≢◌, inl, inr, refl, true, none, some, [], ◌∷◌, ◌++◌, String, arith, find,
  find-update_many, Option-cases,
}
use crm_nusrv.Base.Results.{ok, throw, record_gone}
use crm_nusrv.Store.{Db}
use crm_nusrv.Store.Enums.{RenewalCaseStatus}
use crm_nusrv.Store.Rows.{RenewalCase}
use crm_nusrv.Renewal.Transition.{
  ExtraData, Actor, applied, cas_lost, same, moved, holds_status, swapped, swap, audit_of, is_legal,
  apply_transition,
}
use crm_nusrv.Renewal.Transition.Policy.{same_iff}

-- The effect of a transition that was applied to the row `r` of case `id`.
pub record IsMoved (id : ℕ) (to : RenewalCaseStatus) (extra : ExtraData) (key : String)
    (actor : Actor) (db db' : Db) : Type 0 where
  pub row : RenewalCase
  pub stored : find id db.renewal_cases ≡ some row
  pub legal : is_legal row.status to ≡ true
  pub written : find id db'.renewal_cases ≡ some (moved to extra row)
  pub others : (j : ℕ) → j ≢ id → find j db'.renewal_cases ≡ find j db.renewal_cases
  pub audited : db'.audit ≡ db.audit ++ audit_of actor key id ∷ []
  pub rest : db' ≡ record db { renewal_cases = db'.renewal_cases; audit = db'.audit }

module _ (id : ℕ) (from to : RenewalCaseStatus) (extra : ExtraData) (db : Db) where
  find-swapped :
      {r : RenewalCase}
      → find id db.renewal_cases ≡ some r
      → r.status ≡ from
      → find id (swapped id from to extra db.renewal_cases) ≡ some (moved to extra r)
  find-swapped {r} e s = ground (
    arith,
    find-update_many id id (holds_status from) (moved to extra) db.renewal_cases,
    same_iff r.status from,
  )

  find-swapped_ne :
      (j : ℕ)
      → j ≢ id
      → find j (swapped id from to extra db.renewal_cases) ≡ find j db.renewal_cases
  find-swapped_ne j n =
      ground (arith, find-update_many j id (holds_status from) (moved to extra) db.renewal_cases)

-- The database after a swap that found its row.
abbrev pub after_swap :
    ℕ → RenewalCaseStatus → RenewalCaseStatus → ExtraData → String → Actor → Db → Db
after_swap id from to extra key actor db = record db {
  renewal_cases = swapped id from to extra db.renewal_cases;
  audit = db.audit ++ audit_of actor key id ∷ [];
}

-- The write by the stored row: the status it has decides.
pub swap_lem :
    (id : ℕ) (from to : RenewalCaseStatus) (extra : ExtraData) (key : String) (actor : Actor)
    (db : Db) (r : RenewalCase)
    → find id db.renewal_cases ≡ some r
    → swap id from to extra key actor db ≡ (
        if same r.status from
        then ok ((after_swap id from to extra key actor db), applied (moved to extra r))
        else ok (db, cas_lost r.status))
unfolding swap
swap_lem id from to extra key actor db r e =
    ground (arith, find-swapped id from to extra db e, same_iff r.status from)

pub swap_gone :
    (id : ℕ) (from to : RenewalCaseStatus) (extra : ExtraData) (key : String) (actor : Actor)
    (db : Db)
    → find id db.renewal_cases ≡ none
    → swap id from to extra key actor db ≡ throw record_gone
unfolding swap
swap_gone id from to extra key actor db e = ground arith

-- What a transition that reports success says of the stored row `r`.
apply_transition-applied :
    (id : ℕ) (current : RenewalCase) (to : RenewalCaseStatus) (extra : ExtraData) (key : String)
    (actor : Actor) (db : Db) (r : RenewalCase) {db' : Db} {c : RenewalCase}
    → find id db.renewal_cases ≡ some r
    → apply_transition id current to extra key actor db ≡ ok (db', applied c)
    → (is_legal current.status to ≡ true)
      × (r.status ≡ current.status)
      × (db' ≡ (after_swap id current.status to extra key actor db))
      × (c ≡ moved to extra r)
unfolding apply_transition
apply_transition-applied id current to extra key actor db r stored e = ground (
  arith,
  swap_lem id current.status to extra key actor db r stored,
  same_iff r.status current.status,
)

-- It moved the stored row, from a status that allows it, and changed nothing else.
pub apply_transition-IsMoved :
    (id : ℕ) (current : RenewalCase) (to : RenewalCaseStatus) (extra : ExtraData) (key : String)
    (actor : Actor) (db : Db) {db' : Db} {c : RenewalCase}
    → apply_transition id current to extra key actor db ≡ ok (db', applied c)
    → IsMoved id to extra key actor db db' × (find id db'.renewal_cases ≡ some c)
unfolding apply_transition
apply_transition-IsMoved id current to extra key actor db {db'} {c} e =
    elim (Option-cases (find id db.renewal_cases)) [
      | inl gone ↦ ground (arith, swap_gone id current.status to extra key actor db gone)
      | inr (r, stored) ↦
          let (legal, kept, eq, same_c) =
            apply_transition-applied id current to extra key actor db r stored e in
          let written : find id db'.renewal_cases ≡ some (moved to extra r) =
            rw eq (find-swapped id current.status to extra db stored kept) in
          (
            record {
              row = r;
              stored = stored;
              legal = rw kept legal;
              written = written;
              others = λ j n. rw eq (find-swapped_ne id current.status to extra db j n);
              audited = rw eq refl;
              rest = rw eq refl;
            },
            rw same_c written,
          )
    ]
