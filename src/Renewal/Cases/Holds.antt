-- ===== src/Renewal/Cases/Holds.antt =====
-- Placing and releasing a hold, as the reminder policy sees it.
use crm_nusrv.Base.{
  ℕ, ◌≡◌, ◌≢◌, ◌⊎◌, inl, inr, refl, Bool, true, false, ◌||◌, some, List, [], ◌∷◌, ◌++◌, filter, any,
  arith, find, find-update_many, update_many, Option-cases, Bool-cases, ◌==◌,
}
use crm_nusrv.Base.Results.{Exception, ok, throw, conflict, not_found}
use crm_nusrv.Store.{Db}
use crm_nusrv.Store.Rows.{RenewalHold}
use crm_nusrv.Renewal.Policy.{
  is_effective_hold, Hold, effective, stops_customer, stops_internal, is_of_case, unexpired,
  active_holds, aggregate_effective_holds, EffectiveHoldPolicy,
}
use crm_nusrv.Renewal.Cases.{HoldInput, create_hold, release_hold, new_hold, released, every_row}

abbrev pub policy : ℕ → ℕ → Db → EffectiveHoldPolicy
policy case_id as_of db = aggregate_effective_holds (active_holds case_id db.holds) as_of

filter-append :
    (p : Hold → Bool) (xs ys : List Hold) → filter p (xs ++ ys) ≡ filter p xs ++ filter p ys
filter-append p [] ys = refl
filter-append p (x ∷ xs) ys = ground (arith, filter-append p xs ys)

any-append : (p : Hold → Bool) (xs ys : List Hold) → any p (xs ++ ys) ≡ (any p xs || any p ys)
any-append p [] ys = refl
any-append p (x ∷ xs) ys = ground (arith, any-append p xs ys)

-- The holds that are active, effective and of a kind, when one more is placed on the case.
any-placed :
    (p : Hold → Bool) (case_id as_of : ℕ) (xs : List Hold) (h : Hold)
    → h.1.renewal_case_id ≡ case_id
    → h.1.active ≡ true
    → unexpired h.1.expires_at as_of ≡ true
    → any p (filter (effective as_of) (filter (is_of_case case_id) (xs ++ h ∷ [])))
      ≡ (any p (filter (effective as_of) (filter (is_of_case case_id) xs)) || p h)
unfolding is_effective_hold
any-placed p case_id as_of xs h same live later = ground (
  arith,
  filter-append (is_of_case case_id) xs (h ∷ []),
  filter-append (effective as_of) (filter (is_of_case case_id) xs) (h ∷ []),
  any-append p (filter (effective as_of) (filter (is_of_case case_id) xs)) (h ∷ []),
)

create_hold-holds :
    (case_id : ℕ) (input : HoldInput) (actor_id now hold_id : ℕ) (seen db : Db) {db' : Db}
    {h : RenewalHold}
    → create_hold case_id input actor_id now hold_id seen db ≡ ok (db', h)
    → db'.holds ≡ db.holds ++ (hold_id, new_hold input case_id actor_id) ∷ []
unfolding create_hold
create_hold-holds case_id input actor_id now hold_id seen db e = ground arith

-- Until it expires, a placed hold stops what it was asked to stop, besides what was stopped before.
pub create_hold-policy :
    (case_id : ℕ) (input : HoldInput) (actor_id now hold_id as_of : ℕ) (seen db : Db) {db' : Db}
    {h : RenewalHold}
    → create_hold case_id input actor_id now hold_id seen db ≡ ok (db', h)
    → unexpired input.expires_at as_of ≡ true
    → ((policy case_id as_of db').stop_customer_reminders
        ≡ ((policy case_id as_of db).stop_customer_reminders || input.stops_customer_reminders))
      × ((policy case_id as_of db').stop_internal_notifications ≡ (
          (policy case_id as_of db).stop_internal_notifications
          || input.stops_internal_notifications))
unfolding aggregate_effective_holds active_holds
create_hold-policy case_id input actor_id now hold_id as_of seen db {db'} e later =
    let at = create_hold-holds case_id input actor_id now hold_id seen db e in
    let placed : Hold = (hold_id, new_hold input case_id actor_id) in
    (
      rw at (any-placed stops_customer case_id as_of db.holds placed refl refl later),
      rw at (any-placed stops_internal case_id as_of db.holds placed refl refl later),
    )

-- What a release that answers has done.
pub record IsReleased (hold_id actor_id now : ℕ) (db db' : Db) (h : RenewalHold) : Type 0 where
  pub old : RenewalHold
  pub was : find hold_id db.holds ≡ some old
  pub answer : h ≡ released actor_id now old
  pub written : find hold_id db'.holds ≡ some h
  pub others : (j : ℕ) → j ≢ hold_id → find j db'.holds ≡ find j db.holds
  pub lifted : (as_of : ℕ) → is_effective_hold h as_of ≡ false

-- A release that answers makes the stored hold ineffective for good, records who released it and
-- when, and leaves every other hold alone.
pub release_hold-IsReleased :
    (case_id hold_id actor_id now : ℕ) (seen db : Db) {db' : Db} {h : RenewalHold}
    → release_hold case_id hold_id actor_id now seen db ≡ ok (db', h)
    → IsReleased hold_id actor_id now db db' h
unfolding release_hold is_effective_hold
release_hold-IsReleased case_id hold_id actor_id now seen db {db'} {h} e =
    elim (Option-cases (find hold_id db.holds)) [
      | inl gone ↦
          ground
            (arith, find-update_many hold_id hold_id every_row (released actor_id now) db.holds)
      | inr (old, was) ↦
          let (holds, answer) = facts old was in
          record {
            old = old;
            was = was;
            answer = answer;
            written =
                rw (holds, answer)
                  (ground (
                    arith,
                    find-update_many hold_id hold_id every_row (released actor_id now) db.holds,
                  ));
            others = λ j n. rw holds (
                ground
                  (arith, find-update_many j hold_id every_row (released actor_id now) db.holds));
            lifted = λ as_of. rw answer refl;
          }
    ]
  where
    facts :
        (old : RenewalHold)
        → find hold_id db.holds ≡ some old
        → (db'.holds ≡ update_many hold_id every_row (released actor_id now) db.holds)
          × (h ≡ released actor_id now old)
    facts old was =
        ground (arith, find-update_many hold_id hold_id every_row (released actor_id now) db.holds)

-- A hold that was released already is refused, and so is one of another case.
pub release_hold_refused :
    (case_id hold_id actor_id now : ℕ) (seen db : Db) (old : RenewalHold)
    → find hold_id seen.holds ≡ some old
    → (old.renewal_case_id ≢ case_id) ⊎ (old.active ≡ false)
    → (e : Exception) × (release_hold case_id hold_id actor_id now seen db ≡ throw e)
unfolding release_hold
release_hold_refused case_id hold_id actor_id now seen db old was why =
    elim (Bool-cases (old.renewal_case_id == case_id)) [
      | inl same ↦ (conflict, ground arith)
      | inr other ↦ (not_found, ground arith)
    ]
