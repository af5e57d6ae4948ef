-- ===== src/Renewal/Examples.antt =====
-- The theorems on renewal cases, applied to a small database.
use crm_nusrv.Base.{◌≡◌, refl, inl, true, false, some, [], ◌∷◌, codes, find, update_many, ◌||◌}
use crm_nusrv.Base.Results.{ok, throw, conflict}
use crm_nusrv.Store.{Db}
use crm_nusrv.Store.Enums.{RenewalCaseStatus, ActorType}
use crm_nusrv.Store.Samples.{sample_db, sample_case, sample_hold}
use crm_nusrv.Renewal.Transition.{same, moved, is_legal, apply_transition, includes, swap}
use crm_nusrv.Renewal.Transition.Swap.{IsMoved, after_swap}
use crm_nusrv.Renewal.Cases.{
  mark_accepted, data_of, event_key_of, staff, mark, HoldInput, create_hold, new_hold, release_hold,
  released,
}
use crm_nusrv.Renewal.Cases.Actions.{mark-IsMoved, mark_ok, mark_refused}
use crm_nusrv.Renewal.Cases.Holds.{policy, create_hold-policy, IsReleased, release_hold-IsReleased}

abbrev accepted_db : Db
accepted_db =
    after_swap 1 RenewalCaseStatus.reminder_cycle RenewalCaseStatus.accepted
      (data_of mark_accepted 500) (event_key_of mark_accepted) (staff 7) sample_db

accepts :
    mark mark_accepted 500 7 1 sample_db sample_db
    ≡ ok (accepted_db, moved RenewalCaseStatus.accepted (data_of mark_accepted 500) sample_case)
unfolding mark apply_transition includes is_legal swap update_many
accepts = refl

mark-IsMoved_example :
    IsMoved 1 RenewalCaseStatus.accepted
      (data_of mark_accepted 500)
      (event_key_of mark_accepted)
      (staff 7)
      sample_db
      accepted_db
    × (find 1 accepted_db.renewal_cases
        ≡ some (moved RenewalCaseStatus.accepted (data_of mark_accepted 500) sample_case))
mark-IsMoved_example = mark-IsMoved mark_accepted 500 7 1 sample_db sample_db accepts

mark_ok_example :
    (db' : Db) × (mark mark_accepted 500 7 1 sample_db sample_db
      ≡ ok (db', moved RenewalCaseStatus.accepted (data_of mark_accepted 500) sample_case))
unfolding is_legal
mark_ok_example =
    mark_ok mark_accepted 500 7 1 sample_db sample_db sample_case sample_case refl refl refl refl

-- The case that another member of the staff accepted meanwhile.
mark_refused_example : mark mark_accepted 600 8 1 sample_db accepted_db ≡ throw conflict
unfolding moved update_many same
mark_refused_example =
    mark_refused mark_accepted 600 8 1 sample_db accepted_db sample_case
      (moved RenewalCaseStatus.accepted (data_of mark_accepted 500) sample_case) refl refl
      (inl (λ e. cc))

abbrev asked : HoldInput
asked = record {
  reason = codes "  on leave until May ";
  stops_customer_reminders = true;
  stops_internal_notifications = false;
  expires_at = some 4000;
}

abbrev held_db : Db
held_db = record sample_db {
  holds = (1, sample_hold) ∷ (2, new_hold asked 1 7) ∷ [];
  audit =
      record {
        actor_type = ActorType.user;
        actor_id = some 7;
        event_key = "renewal.hold.created";
        subject_type = "RenewalHold";
        subject_id = 2;
      }
      ∷ [];
}

holds_placed : create_hold 1 asked 7 600 2 sample_db sample_db ≡ ok (held_db, new_hold asked 1 7)
unfolding create_hold
holds_placed = refl

create_hold-policy_example :
    ((policy 1 1000 held_db).stop_customer_reminders
      ≡ ((policy 1 1000 sample_db).stop_customer_reminders || true))
    × ((policy 1 1000 held_db).stop_internal_notifications
        ≡ ((policy 1 1000 sample_db).stop_internal_notifications || false))
create_hold-policy_example =
    create_hold-policy 1 asked 7 600 2 1000 sample_db sample_db holds_placed refl

abbrev released_db : Db
released_db = record sample_db {
  holds = (1, released 8 900 sample_hold) ∷ [];
  audit =
      record {
        actor_type = ActorType.user;
        actor_id = some 8;
        event_key = "renewal.hold.released";
        subject_type = "RenewalHold";
        subject_id = 1;
      }
      ∷ [];
}

release : release_hold 1 1 8 900 sample_db sample_db ≡ ok (released_db, released 8 900 sample_hold)
unfolding release_hold update_many
release = refl

release_hold-IsReleased_example :
    IsReleased 1 8 900 sample_db released_db (released 8 900 sample_hold)
release_hold-IsReleased_example = release_hold-IsReleased 1 1 8 900 sample_db sample_db release
