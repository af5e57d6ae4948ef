-- ===== src/Ai/Routing/Batch.antt =====
-- `processBatch` of ai-routing.service.ts: the routing decisions that wait, one after another. The rows
-- stand in the order of their creation.
pub mod Paused
use crm_nusrv.Base.{ℕ, suc, ◌+◌, Bool, not, ◌&&◌, ◌||◌, List, [], ◌∷◌, Table, filter, take, length}
use crm_nusrv.Base.Results.{Result, ok, ◌>>=◌}
use crm_nusrv.Store.{Db}
use crm_nusrv.Store.Rows.{RoutingDecision}
use crm_nusrv.Ai.Routing.{
  RoutingOutcome, succeeded, skipped, failed, not_claimed, conflict, paused, routing_claimable,
}
use crm_nusrv.Ai.Routing.Process.{Others, is_auto, process_one}

pub record AiRoutingBatchSummary : Type 0 where
  pub candidates : ℕ
  pub succeeded_count : ℕ
  pub skipped_count : ℕ
  pub failed_count : ℕ
  pub not_claimed_count : ℕ
  pub conflict_count : ℕ
  pub paused_count : ℕ

abbrev pub count_routed : RoutingOutcome → AiRoutingBatchSummary → AiRoutingBatchSummary
count_routed succeeded s = record s { succeeded_count = suc s.succeeded_count }
count_routed skipped s = record s { skipped_count = suc s.skipped_count }
count_routed failed s = record s { failed_count = suc s.failed_count }
count_routed not_claimed s = record s { not_claimed_count = suc s.not_claimed_count }
count_routed conflict s = record s { conflict_count = suc s.conflict_count }
count_routed paused s = record s { paused_count = suc s.paused_count }

-- While the switch is off, decisions to accept automatically are no candidates.
abbrev pub is_routing_candidate : Bool → ℕ → ℕ × RoutingDecision → Bool
is_routing_candidate auto_accept_enabled now (_, d) =
    routing_claimable now d && (auto_accept_enabled || not (is_auto d.action))

-- `AI_ROUTING_RECOVERY_SCAN_BATCH_SIZE`
abbrev pub scan_batch_size : ℕ
scan_batch_size = 100

unfoldable pub routing_candidates : Bool → ℕ → Db → Table RoutingDecision
routing_candidates auto_accept_enabled now db =
    take scan_batch_size (filter (is_routing_candidate auto_accept_enabled now) db.routing)

-- What a decision meets when its turn comes: the switch, the clock, and what others do.
pub record Moment : Type 0 where
  pub auto_accept_enabled : Bool
  pub clock : ℕ
  pub others : Others

abbrev pub none_routed : ℕ → AiRoutingBatchSummary
none_routed n = record {
  candidates = n;
  succeeded_count = 0;
  skipped_count = 0;
  failed_count = 0;
  not_claimed_count = 0;
  conflict_count = 0;
  paused_count = 0;
}

module _ (moments : ℕ → Moment) where
  abbrev pub process_at : ℕ → Db → Result (Db × RoutingOutcome)
  process_at k db =
      process_one k (moments k).auto_accept_enabled (moments k).clock (moments k).others db

  -- The loop over the candidates.
  unfoldable pub route_all :
      Table RoutingDecision → Db → AiRoutingBatchSummary → Result (Db × AiRoutingBatchSummary)
  route_all [] db s = ok (db, s)
  route_all ((k, _) ∷ l) db s = process_at k db >>= λ r. route_all l r.0 (count_routed r.1 s)

  -- `processBatch`
  unfoldable pub route_batch : Bool → ℕ → Db → Result (Db × AiRoutingBatchSummary)
  route_batch auto_accept_enabled now db =
      let candidates = routing_candidates auto_accept_enabled now db in
      route_all candidates db (none_routed (length candidates))
