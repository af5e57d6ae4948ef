-- ===== src/Ai/BatchExamples.antt =====
-- A batch while the switch is off: the decision to accept stays, the other hands the message over.
use crm_nusrv.Base.{ℕ, ◌≡◌, ◌≤◌, refl, true, false, some, [], ◌∷◌}
use crm_nusrv.Base.Results.{ok}
use crm_nusrv.Store.{Db}
use crm_nusrv.Store.Enums.{RoutingAction, RoutingStatus, ThreadStatus, ClassificationStatus}
use crm_nusrv.Ai.Routing.{routed_event, succeeded}
use crm_nusrv.Ai.Routing.Batch.{
  AiRoutingBatchSummary, Moment, count_routed, none_routed, route_batch, scan_batch_size,
}
use crm_nusrv.Ai.Routing.Batch.Paused.{IsOff, routed_total, route_batch_off}
use crm_nusrv.Ai.Examples.{answered_db, decision, nobody, answer, thread}

abbrev waiting_db : Db
waiting_db = record answered_db {
  routing = (6, decision) ∷ (7, record decision { action = RoutingAction.human_review }) ∷ [];
}

abbrev moments : ℕ → Moment
moments _ = record { auto_accept_enabled = false; clock = 1000; others = nobody }

moments-IsOff : (k : ℕ) → IsOff (moments k)
moments-IsOff k = record { off = refl; at_reads = λ db. refl; at_commit = λ db. refl }

abbrev handed_db : Db
handed_db = record waiting_db {
  threads = (3, record thread { status = ThreadStatus.human_review }) ∷ [];
  messages = (4, record answer { classification_status = ClassificationStatus.human_review }) ∷ [];
  routing =
      (6, decision)
      ∷ (
        7,
        record decision {
          action = RoutingAction.human_review;
          status = RoutingStatus.succeeded;
          attempts = 1;
          last_attempt_at = some 1000;
          result_code = some "ROUTED_TO_HUMAN_REVIEW";
          completed_at = some 1000;
        },
      )
      ∷ [];
  audit = routed_event 4 ∷ [];
}

abbrev summary : AiRoutingBatchSummary
summary = count_routed succeeded (none_routed 1)

hands_over : route_batch moments false 1000 waiting_db ≡ ok (handed_db, summary)
unfolding route_batch crm_nusrv.Ai.Routing.Batch.route_all
    crm_nusrv.Ai.Routing.Batch.routing_candidates crm_nusrv.Ai.Routing.routing_claimable
    crm_nusrv.Ai.Routing.Process.process_one crm_nusrv.Base.update_many
    crm_nusrv.Ai.Routing.execute_human_review crm_nusrv.Ai.Routing.try_route
hands_over = refl

route_batch_off_example :
    (handed_db.renewal_cases ≡ waiting_db.renewal_cases)
    × (routed_total summary ≡ summary.candidates)
    × (summary.candidates ≤ scan_batch_size)
route_batch_off_example = route_batch_off moments moments-IsOff 1000 waiting_db hands_over
