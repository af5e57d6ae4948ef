-- ===== src/Renewal/ReminderExamples.antt =====
-- The theorems on holds and reminder rules, applied to small lists.
use crm_nusrv.Base.{◌≡◌, ◌⊎◌, refl, true, arith, some, none, [], ◌∷◌, List, All}
use crm_nusrv.Base.Int.{ℤ, pos, ◌<ℤ◌}
use crm_nusrv.Store.Samples.{sample_hold}
use crm_nusrv.Renewal.Policy.{Hold}
use crm_nusrv.Renewal.Milestone.{resolve_applicable}
use crm_nusrv.Renewal.Milestone.Choice.{
  IsApplicable, resolve_applicable_lem, resolve_applicable_stable,
}

abbrev first_hold : Hold
first_hold = (1, sample_hold)

abbrev second_hold : Hold
second_hold = (2, record sample_hold { stops_customer_reminders = true })

abbrev rules : List ℤ
rules = pos 30 ∷ pos 7 ∷ pos 14 ∷ []

resolve_applicable_lem_example :
    ((r : ℤ) × (resolve_applicable (λ x. x) rules (pos 10) ≡ some r)
      × IsApplicable (λ x. x) rules (pos 10) r)
    ⊎ ((resolve_applicable (λ x. x) rules (pos 10) ≡ none)
        × ((pos 10 <ℤ pos 0) ⊎ All (λ x. x <ℤ pos 10) rules))
resolve_applicable_lem_example = resolve_applicable_lem (λ x. x) rules (pos 10)

at_ten : resolve_applicable (λ x. x) rules (pos 10) ≡ some (pos 14)
unfolding resolve_applicable
at_ten = refl

-- A run that came four days late finds the same rule.
resolve_applicable_stable_example : resolve_applicable (λ x. x) rules (pos 14) ≡ some (pos 14)
resolve_applicable_stable_example =
    resolve_applicable_stable (λ x. x) rules (pos 10) (pos 14) (pos 14) at_ten (omega arith)
      (omega arith)
