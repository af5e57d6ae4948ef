-- ===== src/Renewal/Transition/Policy.antt =====
-- What the table of legal transitions allows.
use crm_nusrv.Base.{ℕ, ◌≡◌, ◌<◌, ◌↔◌, refl, true, false, if_pos, if_neg, arith}
use crm_nusrv.Store.Enums.{RenewalCaseStatus, RenewalCaseStatus-discrete}
use crm_nusrv.Renewal.Transition.{same, is_legal}
use RenewalCaseStatus.{
  upcoming, reminder_cycle, awaiting_customer, human_review, accepted, do_not_renew, fulfilled,
  payment_confirmed,
}

pub same_iff : (a b : RenewalCaseStatus) → (same a b ≡ true) ↔ (a ≡ b)
unfolding same
same_iff a b = elim (RenewalCaseStatus-discrete a b) [
  | yes p ↦ ((λ _. p), (λ _. if_pos _ p true false))
  | no p ↦ ((λ h. cc (if_neg (RenewalCaseStatus-discrete a b) p true false)), (λ e. absurd (p e)))
]

-- How far a case has come: no decision, waiting for the customer, decided.
abbrev pub stage : RenewalCaseStatus → ℕ
stage awaiting_customer = 1
stage accepted = 2
stage do_not_renew = 2
stage payment_confirmed = 3
stage fulfilled = 4
stage _ = 0

-- A legal transition moves a case forward, whatever its two ends.
pub stage_grows : (from to : RenewalCaseStatus) → is_legal from to ≡ true → stage from < stage to
unfolding is_legal
stage_grows from to h = ground arith

-- The statuses in which no customer decision is recorded.
pub data IsOpen : RenewalCaseStatus → Type 0 where
  upcoming_open : IsOpen upcoming
  reminder_cycle_open : IsOpen reminder_cycle
  human_review_open : IsOpen human_review

-- The table's transitions, as a relation.
pub data Legal : RenewalCaseStatus → RenewalCaseStatus → Type 0 where
  ask : {s : RenewalCaseStatus} → IsOpen s → Legal s awaiting_customer
  accept : {s : RenewalCaseStatus} → IsOpen s → Legal s accepted
  refuse : {s : RenewalCaseStatus} → IsOpen s → Legal s do_not_renew
  answer_yes : Legal awaiting_customer accepted
  answer_no : Legal awaiting_customer do_not_renew
  complete : Legal payment_confirmed fulfilled

ruleset workflow = (
  ask, accept, refuse, answer_yes, answer_no, complete, upcoming_open, reminder_cycle_open,
  human_review_open,
)

Legal-is_legal : {a b : RenewalCaseStatus} → Legal a b → is_legal a b ≡ true
unfolding is_legal
Legal-is_legal (ask upcoming_open) = refl
Legal-is_legal (ask reminder_cycle_open) = refl
Legal-is_legal (ask human_review_open) = refl
Legal-is_legal (accept upcoming_open) = refl
Legal-is_legal (accept reminder_cycle_open) = refl
Legal-is_legal (accept human_review_open) = refl
Legal-is_legal (refuse upcoming_open) = refl
Legal-is_legal (refuse reminder_cycle_open) = refl
Legal-is_legal (refuse human_review_open) = refl
Legal-is_legal answer_yes = refl
Legal-is_legal answer_no = refl
Legal-is_legal complete = refl

is_legal-Legal : (a b : RenewalCaseStatus) → is_legal a b ≡ true → Legal a b
unfolding is_legal
is_legal-Legal a b h = grind (arith, workflow)

-- The check accepts exactly the transitions of the table, written as a relation.
pub is_legal_iff : (a b : RenewalCaseStatus) → (is_legal a b ≡ true) ↔ Legal a b
is_legal_iff a b = (is_legal-Legal a b, Legal-is_legal)
