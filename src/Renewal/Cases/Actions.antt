-- ===== src/Renewal/Cases/Actions.antt =====
-- The four staff actions, whatever happens between the read and the transaction.
use crm_nusrv.Base.{◌⊎◌, ℕ, ◌≡◌, ◌≢◌, true, false, some, find, arith, Option-cases, inl, inr}
use crm_nusrv.Base.Results.{ok, throw, conflict}
use crm_nusrv.Store.{Db}
use crm_nusrv.Store.Enums.{RenewalCaseStatus}
use crm_nusrv.Store.Rows.{RenewalCase}
use crm_nusrv.Renewal.Transition.{assert_legal, is_legal, moved, includes, apply_transition}
use crm_nusrv.Renewal.Transition.Policy.{same_iff}
use crm_nusrv.Renewal.Transition.Swap.{IsMoved, apply_transition-IsMoved, swap_lem, after_swap}
use crm_nusrv.Renewal.Cases.{Action, target, data_of, event_key_of, staff, mark, terminal_statuses}

-- A case that may still be moved is in no terminal status.
terminal-is_legal :
    (from to : RenewalCaseStatus)
    → is_legal from to ≡ true
    → includes from terminal_statuses ≡ false
unfolding is_legal
terminal-is_legal from to h = ground arith

-- An action that answers moved the row that was stored when its transaction ran, from a status that
-- allows the move, set the action's columns, left every other case alone, added one audit event,
-- and answers with the row as it is stored; so it is, whatever the database was at the read.
pub mark-IsMoved :
    (action : Action) (now actor_id id : ℕ) (seen db : Db) {db' : Db} {c : RenewalCase}
    → mark action now actor_id id seen db ≡ ok (db', c)
    → IsMoved id (target action) (data_of action now) (event_key_of action) (staff actor_id) db db'
      × (find id db'.renewal_cases ≡ some c)
unfolding mark
mark-IsMoved action now actor_id id seen db {db'} {c} e =
    elim (Option-cases (find id seen.renewal_cases)) [
      | inl gone ↦ ground arith
      | inr (r, found) ↦
          apply_transition-IsMoved id r (target action) (data_of action now) (event_key_of action)
            (staff actor_id) db (ground arith)
    ]

-- An action answers if its case was read and is still stored in the same status, and that status
-- allows the move; the stored case is then moved.
pub mark_ok :
    (action : Action) (now actor_id id : ℕ) (seen db : Db) (r stored : RenewalCase)
    → find id seen.renewal_cases ≡ some r
    → find id db.renewal_cases ≡ some stored
    → stored.status ≡ r.status
    → is_legal r.status (target action) ≡ true
    → (db' : Db) × (mark action now actor_id id seen db
        ≡ ok (db', moved (target action) (data_of action now) stored))
unfolding mark apply_transition assert_legal
mark_ok action now actor_id id seen db r stored found kept same_status legal = (
  after_swap id r.status (target action) (data_of action now) (event_key_of action) (staff actor_id)
      db,
  ground (
    arith,
    terminal-is_legal r.status (target action) legal,
    swap_lem id r.status (target action) (data_of action now) (event_key_of action) (staff actor_id)
        db stored kept,
    same_iff stored.status r.status,
  ),
)

-- An action whose case is stored in another status than was read, or no longer allows the move, is
-- refused, so the database stays as it was.
pub mark_refused :
    (action : Action) (now actor_id id : ℕ) (seen db : Db) (r stored : RenewalCase)
    → find id seen.renewal_cases ≡ some r
    → find id db.renewal_cases ≡ some stored
    → (stored.status ≢ r.status) ⊎ (is_legal r.status (target action) ≡ false)
    → mark action now actor_id id seen db ≡ throw conflict
unfolding mark apply_transition assert_legal
mark_refused action now actor_id id seen db r stored found kept why = ground (
  arith,
  swap_lem id r.status (target action) (data_of action now) (event_key_of action) (staff actor_id)
      db stored kept,
  same_iff stored.status r.status,
)
