-- ===== src/Ai/Routing/Process.antt =====
-- `processOne` of ai-routing.service.ts, with what the rest of the application does in its gaps.
use crm_nusrv.Base.{
  ℕ, Bool, true, false, not, ◌&&◌, Option, none, some, find, matches, update_many, if◌then◌else◌,
}
use crm_nusrv.Base.Results.{Result, ok, throw, internal_error, find_or_throw, ◌>>=◌}
use crm_nusrv.Store.{Db}
use crm_nusrv.Store.Enums.{RoutingAction}
use crm_nusrv.Store.Rows.{RoutingDecision}
use crm_nusrv.Ai.Routing.{
  RoutingOutcome, not_claimed, paused, routing_claimable, routing_claimed, execute_human_review,
}
use crm_nusrv.Ai.Routing.Accept.{execute_auto_accept}

-- What others do between the claim and the reads, between the reads and the transaction, and after
-- a transaction that was rolled back.
pub record Others : Type 0 where
  pub at_reads : Db → Db
  pub at_commit : Db → Db
  pub at_abort : Db → Db

abbrev pub is_auto : RoutingAction → Bool
is_auto RoutingAction.auto_accept = true
is_auto RoutingAction.human_review = false

abbrev pub peeked : Option RoutingDecision → Bool
peeked none = false
peeked (some d) = is_auto d.action

abbrev pub token_of : Option ℕ → Result ℕ
token_of none = throw internal_error
token_of (some t) = ok t

abbrev pub execute : ℕ → RoutingDecision → ℕ → ℕ → Db → Db → Db → Result (Db × RoutingOutcome)
execute id decision token now seen db later =
    if is_auto decision.action
    then execute_auto_accept id decision token now seen db later
    else execute_human_review id decision token now seen db

-- `claim`, with its read
abbrev pub claim_routing : ℕ → ℕ → Db → Db
claim_routing id now db = record db {
  routing = update_many id (routing_claimable now) (routing_claimed now) db.routing;
}

unfoldable pub process_one : ℕ → Bool → ℕ → Others → Db → Result (Db × RoutingOutcome)
process_one id auto_accept_enabled now others db =
    if peeked (find id db.routing) && not auto_accept_enabled
    then ok (db, paused)
    else if not (matches id (routing_claimable now) db.routing)
    then ok (db, not_claimed)
    else do
      let claimed = claim_routing id now db
      decision ← find_or_throw id claimed.routing
      token ← token_of decision.last_attempt_at
      let seen = others.at_reads claimed
      let at_commit = others.at_commit seen
      execute id decision token now seen at_commit (others.at_abort at_commit)
