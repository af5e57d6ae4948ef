-- ===== src/Renewal/Policy.antt =====
-- apps/api/src/modules/renewal-cases/renewal-policy.ts: which cases get reminders, and what the
-- workflow holds on a case stop.
pub mod Holds
use crm_nusrv.Base.{
  ℕ, Bool, true, false, ◌&&◌, Option, none, some, List, [], ◌∷◌, map, filter, any, leb, ltb, ◌==◌,
  Table, if◌then◌else◌,
}
use crm_nusrv.Store.Enums.{RenewalCaseStatus}
use crm_nusrv.Store.Rows.{RenewalHold}
use RenewalCaseStatus.{upcoming, reminder_cycle, awaiting_customer}

-- `REMINDER_ELIGIBLE_STATUSES.has(status)`
unfoldable pub is_reminder_eligible : RenewalCaseStatus → Bool
is_reminder_eligible upcoming = true
is_reminder_eligible reminder_cycle = true
is_reminder_eligible awaiting_customer = true
is_reminder_eligible _ = false

abbrev pub unexpired : Option ℕ → ℕ → Bool
unexpired none as_of = true
unexpired (some t) as_of = ltb as_of t

unfoldable pub is_effective_hold : RenewalHold → ℕ → Bool
is_effective_hold hold as_of = hold.active && unexpired hold.expires_at as_of

pub record EffectiveHoldPolicy : Type 0 where
  pub effective_hold_ids : List ℕ
  pub customer_reminder_hold_ids : List ℕ
  pub internal_notification_hold_ids : List ℕ
  pub stop_customer_reminders : Bool
  pub stop_internal_notifications : Bool

-- `Array.prototype.sort`
unfoldable pub insert : ℕ → List ℕ → List ℕ
insert a [] = a ∷ []
insert a (b ∷ l) = let rest = insert a l in if leb a b then a ∷ b ∷ l else b ∷ rest

unfoldable pub sort : List ℕ → List ℕ
unfolding insert
sort [] = []
sort (a ∷ l) = insert a (sort l)

-- A hold with its id.
abbrev pub Hold : Type 0
Hold = ℕ × RenewalHold

abbrev pub id_of : Hold → ℕ
id_of h = h.0

abbrev pub effective : ℕ → Hold → Bool
effective as_of h = is_effective_hold h.1 as_of

abbrev pub stops_customer : Hold → Bool
stops_customer h = h.1.stops_customer_reminders

abbrev pub stops_internal : Hold → Bool
stops_internal h = h.1.stops_internal_notifications

unfoldable pub aggregate_effective_holds : List Hold → ℕ → EffectiveHoldPolicy
unfolding sort
aggregate_effective_holds holds as_of =
    let effective_holds = filter (effective as_of) holds in
    record {
      effective_hold_ids = sort (map id_of effective_holds);
      customer_reminder_hold_ids = sort (map id_of (filter stops_customer effective_holds));
      internal_notification_hold_ids = sort (map id_of (filter stops_internal effective_holds));
      stop_customer_reminders = any stops_customer effective_holds;
      stop_internal_notifications = any stops_internal effective_holds;
    }

-- `holds: { where: { active: true } }` of the case `id`, as the services load it.
abbrev pub is_of_case : ℕ → Hold → Bool
is_of_case id h = h.1.renewal_case_id == id && h.1.active

unfoldable pub active_holds : ℕ → Table RenewalHold → List Hold
active_holds id holds = filter (is_of_case id) holds
