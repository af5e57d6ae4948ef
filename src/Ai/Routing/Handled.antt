-- ===== src/Ai/Routing/Handled.antt =====
-- `processOne` as a whole.
use crm_nusrv.Base.{ℕ, ◌≡◌, Bool, true, some, find, arith, find-update_many, Bool-cases, inl, inr}
use crm_nusrv.Base.Results.{ok}
use crm_nusrv.Store.{Db}
use crm_nusrv.Store.Enums.{RoutingAction}
use crm_nusrv.Store.Rows.{RoutingDecision}
use crm_nusrv.Ai.Routing.{succeeded, routing_claimable, routing_claimed}
use crm_nusrv.Ai.Routing.Accept.{execute_auto_accept}
use crm_nusrv.Ai.Routing.Process.{Others, claim_routing, process_one}
use crm_nusrv.Ai.Routing.Accepted.{IsAccepted, execute_auto_accept-IsAccepted}

module _ (id : ℕ) (auto_accept_enabled : Bool) (now : ℕ) (others : Others) (db : Db)
    (d : RoutingDecision) (stored : find id db.routing ≡ some d) where
  claimed-stored :
      routing_claimable now d ≡ true
      → find id (claim_routing id now db).routing ≡ some (routing_claimed now d)
  claimed-stored free =
      ground
        (arith, find-update_many id id (routing_claimable now) (routing_claimed now) db.routing)

  -- A decision to accept a renewal that is reported as carried out was allowed by the switch and free
  -- to be claimed, and the acceptance rests on the facts that hold at its reads and its transaction,
  -- whatever others do in between.
  pub process_one-IsAccepted :
      {db' : Db}
      → d.action ≡ RoutingAction.auto_accept
      → process_one id auto_accept_enabled now others db ≡ ok (db', succeeded)
      → let seen = others.at_reads (claim_routing id now db) in
        (auto_accept_enabled ≡ true)
        × (routing_claimable now d ≡ true)
        × IsAccepted id (routing_claimed now d) now now seen (others.at_commit seen) db'
  unfolding process_one
  process_one-IsAccepted {db'} auto e = elim (Bool-cases (routing_claimable now d)) [
    | inr busy ↦ ground arith
    | inl free ↦
        let there = claimed-stored free in
        let seen = others.at_reads (claim_routing id now db) in
        let at_commit = others.at_commit seen in
        let on : auto_accept_enabled ≡ true = ground arith in
        let run : execute_auto_accept id (routing_claimed now d) now now seen at_commit
              (others.at_abort at_commit)
            ≡ ok (db', succeeded) =
          ground arith in
        (
          on,
          free,
          execute_auto_accept-IsAccepted id (routing_claimed now d) now now seen at_commit
              (others.at_abort at_commit) run,
        )
  ]
