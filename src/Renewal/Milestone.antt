-- ===== src/Renewal/Milestone.antt =====
-- `resolveApplicableCustomerMilestone` of apps/api/src/modules/renewal-cases/renewal-engine.service.ts:
-- which reminder rule applies, so many days before the due date. A rule's type is a parameter, with
-- its number of days.
pub mod Choice
use crm_nusrv.Base.{ℕ, Bool, true, false, Option, none, some, List, [], ◌∷◌, filter, if◌then◌else◌}
use crm_nusrv.Base.Int.{ℤ, pos, leb_ℤ, ltb_ℤ}

module _ {ℓ} {T : Type ℓ} (days_before_due : T → ℤ) where
  -- The callback of `reduce`.
  abbrev pub closer : Option T → T → T
  closer none rule = rule
  closer (some closest) rule =
      if ltb_ℤ (days_before_due rule) (days_before_due closest) then rule else closest

  unfoldable pub reduce : Option T → List T → Option T
  reduce closest [] = closest
  reduce closest (rule ∷ rules) = reduce (some (closer closest rule)) rules

  abbrev pub applies : ℤ → T → Bool
  applies days rule = leb_ℤ days (days_before_due rule)

  unfoldable pub resolve_applicable : List T → ℤ → Option T
  unfolding reduce
  resolve_applicable rules days =
      if ltb_ℤ days (pos 0) then none else reduce none (filter (applies days) rules)
