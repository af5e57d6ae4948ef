-- ===== src/Renewal/Transition.antt =====
-- apps/api/src/modules/renewal-cases/renewal-transition-policy.ts: which status a renewal case may
-- move to, and the compare-and-swap write that moves it.
pub mod Policy
pub mod Swap
use crm_nusrv.Base.{
  ℕ, ◌≡◌, Bool, true, false, Option, none, some, List, [], ◌∷◌, ◌++◌, ite, Table, String, find,
  matches, update_many, if◌then◌else◌,
}
use crm_nusrv.Base.Results.{Result, ok, conflict, guard, find_or_throw, ◌>>=◌, ◌>>◌}
use crm_nusrv.Store.{Db}
use crm_nusrv.Store.Enums.{
  RenewalCaseStatus, RenewalCaseStatus-discrete, CustomerDecision, ActorType,
}
use crm_nusrv.Store.Rows.{RenewalCase, AuditEvent}
use RenewalCaseStatus.{
  upcoming, reminder_cycle, awaiting_customer, human_review, accepted, do_not_renew, fulfilled,
  payment_confirmed,
}

-- `a === b`
unfoldable pub same : RenewalCaseStatus → RenewalCaseStatus → Bool
unfolding RenewalCaseStatus-discrete
same a b = ite (RenewalCaseStatus-discrete a b) true false

unfoldable pub legal_predecessors : RenewalCaseStatus → Option (List RenewalCaseStatus)
legal_predecessors awaiting_customer = some (upcoming ∷ reminder_cycle ∷ human_review ∷ [])
legal_predecessors accepted =
    some (upcoming ∷ reminder_cycle ∷ awaiting_customer ∷ human_review ∷ [])
legal_predecessors do_not_renew =
    some (upcoming ∷ reminder_cycle ∷ awaiting_customer ∷ human_review ∷ [])
legal_predecessors fulfilled = some (payment_confirmed ∷ [])
legal_predecessors _ = none

-- `Array.prototype.includes`
unfoldable pub includes : RenewalCaseStatus → List RenewalCaseStatus → Bool
unfolding same
includes a [] = false
includes a (b ∷ l) = if same b a then true else includes a l

unfoldable pub is_legal : RenewalCaseStatus → RenewalCaseStatus → Bool
unfolding legal_predecessors includes
is_legal from to = elim (legal_predecessors to) [ none ↦ false | some l ↦ includes from l ]

unfoldable pub assert_legal : RenewalCaseStatus → RenewalCaseStatus → Result (Unit {0})
assert_legal from to = guard (is_legal from to) conflict

-- `extraData`: the columns that an action sets besides the status.
pub record ExtraData : Type 0 where
  pub customer_decision : Option CustomerDecision
  pub accepted_at : Option ℕ
  pub do_not_renew_at : Option ℕ
  pub fulfilled_at : Option ℕ

abbrev given {ℓ} : {A : Type ℓ} → Option A → A → A
given none old = old
given (some new) old = new

abbrev or_else {ℓ} : {A : Type ℓ} → Option A → Option A → Option A
or_else none old = old
or_else (some new) old = some new

-- `data: { status, ...extraData }`
unfoldable pub moved : RenewalCaseStatus → ExtraData → RenewalCase → RenewalCase
moved to extra c = record c {
  status = to;
  customer_decision = given extra.customer_decision c.customer_decision;
  accepted_at = or_else extra.accepted_at c.accepted_at;
  do_not_renew_at = or_else extra.do_not_renew_at c.do_not_renew_at;
  fulfilled_at = or_else extra.fulfilled_at c.fulfilled_at;
}

pub record Actor : Type 0 where
  pub actor_type : ActorType
  pub actor_id : Option ℕ

pub data TransitionResult : Type 0 where
  applied : RenewalCase → TransitionResult
  cas_lost : RenewalCaseStatus → TransitionResult

abbrev pub audit_of : Actor → String → ℕ → AuditEvent
audit_of actor key id = record {
  actor_type = actor.actor_type;
  actor_id = actor.actor_id;
  event_key = key;
  subject_type = "RenewalCase";
  subject_id = id;
}

-- The compare-and-swap on the stored status.
abbrev pub holds_status : RenewalCaseStatus → RenewalCase → Bool
holds_status from c = same c.status from

abbrev pub swapped :
    ℕ → RenewalCaseStatus → RenewalCaseStatus → ExtraData → Table RenewalCase → Table RenewalCase
swapped id from to extra cases = update_many id (holds_status from) (moved to extra) cases

-- The transaction body after the check, by the count of `updateMany`.
unfoldable pub swap :
    ℕ
    → RenewalCaseStatus
    → RenewalCaseStatus
    → ExtraData
    → String
    → Actor
    → Db
    → Result (Db × TransitionResult)
unfolding moved same
swap id from to extra key actor db =
    let cases = swapped id from to extra db.renewal_cases in
    let lost = λ (latest : RenewalCase). ok (db, cas_lost latest.status) in
    let won = λ (c : RenewalCase). ok (
      record db { renewal_cases = cases; audit = db.audit ++ audit_of actor key id ∷ [] },
      applied c,
    ) in
    if matches id (holds_status from) db.renewal_cases
    then find_or_throw id cases >>= won
    else (find_or_throw id db.renewal_cases >>= lost)

-- `applyRenewalCaseTransition`
unfoldable pub apply_transition :
    ℕ
    → RenewalCase
    → RenewalCaseStatus
    → ExtraData
    → String
    → Actor
    → Db
    → Result (Db × TransitionResult)
unfolding assert_legal
apply_transition id current to extra key actor db = do
  assert_legal current.status to
  swap id current.status to extra key actor db
