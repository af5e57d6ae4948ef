-- ===== src/Renewal/Cases.antt =====
-- apps/api/src/modules/renewal-cases/renewal-cases.service.ts: the staff actions on a renewal case
-- and on its holds. An action reads the database first and opens its transaction later, so it has
-- two databases: `seen`, at the read, and `db`, when the transaction runs.
pub mod Actions
pub mod Holds
use crm_nusrv.Base.{
  ℕ, ◌<◌, Bool, true, false, not, Option, none, some, List, [], ◌∷◌, ◌++◌, String, ite,
  if◌then◌else◌, leb, ltb, ◌==◌, ◌&&◌, Table, find, create, Text, trim, length, update_many,
}
use crm_nusrv.Base.Results.{
  Result, ok, throw, bad_request, not_found, conflict, guard, find_or_throw, ◌>>=◌, ◌>>◌,
}
use crm_nusrv.Store.{Db}
use crm_nusrv.Store.Enums.{RenewalCaseStatus, CustomerDecision, ActorType}
use crm_nusrv.Store.Rows.{RenewalCase, RenewalHold, AuditEvent}
use crm_nusrv.Renewal.Transition.{
  includes, assert_legal, ExtraData, Actor, TransitionResult, applied, cas_lost, apply_transition,
}
use RenewalCaseStatus.{awaiting_customer, accepted, do_not_renew, fulfilled, closed, rejected}

-- `TERMINAL_STATUSES`
abbrev pub terminal_statuses : List RenewalCaseStatus
terminal_statuses = closed ∷ fulfilled ∷ rejected ∷ do_not_renew ∷ []

-- `MutationContext`, without the address
abbrev pub staff : ℕ → Actor
staff id = record { actor_type = ActorType.user; actor_id = some id }

abbrev find_case : ℕ → Table RenewalCase → Result RenewalCase
find_case id cases = elim (find id cases) [ none ↦ throw not_found | some c ↦ ok c ]

abbrev settle : Db × TransitionResult → Result (Db × RenewalCase)
settle (db, applied c) = ok (db, c)
settle (db, cas_lost _) = throw conflict

-- `transitionStatus`
unfoldable pub transition_status :
    ℕ → RenewalCaseStatus → ExtraData → String → Actor → Db → Db → Result (Db × RenewalCase)
transition_status id to extra key actor seen db = do
  current ← find_case id seen.renewal_cases
  guard (not (includes current.status terminal_statuses)) conflict
  assert_legal current.status to
  done ← apply_transition id current to extra key actor db
  settle done

abbrev no_data : ExtraData
no_data = record {
  customer_decision = none;
  accepted_at = none;
  do_not_renew_at = none;
  fulfilled_at = none;
}

-- The four buttons of a case's page.
pub data Action : Type 0 where
  mark_awaiting_customer mark_accepted mark_do_not_renew mark_fulfilled : Action

abbrev pub target : Action → RenewalCaseStatus
target mark_awaiting_customer = awaiting_customer
target mark_accepted = accepted
target mark_do_not_renew = do_not_renew
target mark_fulfilled = fulfilled

-- The columns that each sets besides the status; `now` is the clock.
abbrev pub data_of : Action → ℕ → ExtraData
data_of mark_awaiting_customer now = no_data
data_of mark_accepted now = record no_data {
  customer_decision = some CustomerDecision.accepted;
  accepted_at = some now;
}
data_of mark_do_not_renew now = record no_data {
  customer_decision = some CustomerDecision.rejected;
  do_not_renew_at = some now;
}
data_of mark_fulfilled now = record no_data { fulfilled_at = some now }

abbrev pub event_key_of : Action → String
event_key_of mark_awaiting_customer = "renewal.case.marked_awaiting_customer"
event_key_of mark_accepted = "renewal.case.marked_accepted"
event_key_of mark_do_not_renew = "renewal.case.marked_do_not_renew"
event_key_of mark_fulfilled = "renewal.case.marked_fulfilled"

-- `markAwaitingCustomer`, `markAccepted`, `markDoNotRenew`, `markFulfilled`
unfoldable pub mark : Action → ℕ → ℕ → ℕ → Db → Db → Result (Db × RenewalCase)
unfolding transition_status
mark action now actor_id id seen db =
    transition_status id (target action) (data_of action now) (event_key_of action) (staff actor_id)
      seen db

abbrev hold_audit : ℕ → String → ℕ → AuditEvent
hold_audit actor_id key hold_id = record {
  actor_type = ActorType.user;
  actor_id = some actor_id;
  event_key = key;
  subject_type = "RenewalHold";
  subject_id = hold_id;
}

-- `CreateRenewalHoldDto`
pub record HoldInput : Type 0 where
  pub reason : Text
  pub stops_customer_reminders : Bool
  pub stops_internal_notifications : Bool
  pub expires_at : Option ℕ

abbrev in_future : ℕ → Option ℕ → Bool
in_future now none = true
in_future now (some t) = ltb now t

abbrev pub new_hold : HoldInput → ℕ → ℕ → RenewalHold
new_hold input case_id actor_id = record {
  renewal_case_id = case_id;
  reason = trim input.reason;
  active = true;
  stops_customer_reminders = input.stops_customer_reminders;
  stops_internal_notifications = input.stops_internal_notifications;
  expires_at = input.expires_at;
  created_by_id = actor_id;
  released_by_id = none;
  released_at = none;
}

-- `createHold`; `hold_id` is the id that the insert generates.
unfoldable pub create_hold : ℕ → HoldInput → ℕ → ℕ → ℕ → Db → Db → Result (Db × RenewalHold)
unfolding trim
create_hold case_id input actor_id now hold_id seen db = do
  found ← find_case case_id seen.renewal_cases
  guard (leb 3 (length (trim input.reason))) bad_request
  guard (in_future now input.expires_at) bad_request
  let hold = new_hold input case_id actor_id
  ok (
    record db {
      holds = create hold_id hold db.holds;
      audit = db.audit ++ hold_audit actor_id "renewal.hold.created" hold_id ∷ [];
    },
    hold,
  )

abbrev find_hold : ℕ → ℕ → Table RenewalHold → Result RenewalHold
find_hold case_id id holds = elim (find id holds) [
  | none ↦ throw not_found
  | some h ↦ if h.renewal_case_id == case_id then ok h else throw not_found
]

abbrev pub released : ℕ → ℕ → RenewalHold → RenewalHold
released actor_id now h = record h {
  active = false;
  released_by_id = some actor_id;
  released_at = some now;
}

abbrev every_row {ℓ} : {A : Type ℓ} → A → Bool
every_row _ = true

-- `releaseHold`
unfoldable pub release_hold : ℕ → ℕ → ℕ → ℕ → Db → Db → Result (Db × RenewalHold)
release_hold case_id hold_id actor_id now seen db = do
  old ← find_hold case_id hold_id seen.holds
  guard old.active conflict
  let holds = update_many hold_id every_row (released actor_id now) db.holds
  hold ← find_or_throw hold_id holds
  ok (
    record db {
      holds = holds;
      audit = db.audit ++ hold_audit actor_id "renewal.hold.released" hold_id ∷ [];
    },
    hold,
  )
