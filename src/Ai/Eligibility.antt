-- ===== src/Ai/Eligibility.antt =====
-- apps/api/src/modules/ai/ai-routing-eligibility.util.ts: whether a classified message may accept a
-- renewal without a member of the staff.
use crm_nusrv.Base.{
  ℕ, ◌≡◌, refl, ◌↔◌, ◌≤◌, Bool, true, false, ◌&&◌, Option, none, some, is_some, leb, arith,
  if◌then◌else◌,
}
use crm_nusrv.Store.Enums.{AiIntent, RoutingAction}

pub record RoutingInput : Type 0 where
  pub intent : AiIntent
  pub renewal_case_id : Option ℕ
  pub auto_route_accept_enabled : Bool
  pub cutover_at : Option ℕ
  pub now : ℕ
  pub message_created_at : ℕ
  pub message_occurred_at : ℕ

abbrev pub is_acceptance : AiIntent → Bool
is_acceptance AiIntent.accept_renewal = true
is_acceptance _ = false

abbrev not_before : Option ℕ → ℕ → Bool
not_before none t = false
not_before (some cutover) t = leb cutover t

-- `decideClassificationTimeRoutingAction`
unfoldable pub decide_action : RoutingInput → RoutingAction
decide_action input =
    if is_acceptance input.intent
      && (input.auto_route_accept_enabled
          && (not_before input.cutover_at input.now
              && (not_before input.cutover_at input.message_created_at
                  && (not_before input.cutover_at input.message_occurred_at
                      && is_some input.renewal_case_id))))
    then RoutingAction.auto_accept
    else RoutingAction.human_review

-- What an automatic acceptance rests on.
pub record MayAccept (input : RoutingInput) : Type 0 where
  pub intent : input.intent ≡ AiIntent.accept_renewal
  pub enabled : input.auto_route_accept_enabled ≡ true
  pub cutover : ℕ
  pub is_cutover : input.cutover_at ≡ some cutover
  pub now : cutover ≤ input.now
  pub created : cutover ≤ input.message_created_at
  pub occurred : cutover ≤ input.message_occurred_at
  pub has_case : is_some input.renewal_case_id ≡ true

accepts-MayAccept :
    (input : RoutingInput) → decide_action input ≡ RoutingAction.auto_accept → MayAccept input
unfolding decide_action
accepts-MayAccept input h = go input.cutover_at refl
  where
    go : (o : Option ℕ) → input.cutover_at ≡ o → MayAccept input
    go none e = ground arith
    go (some t) e = record {
      intent = ground arith;
      enabled = ground arith;
      cutover = t;
      is_cutover = e;
      now = ground arith;
      created = ground arith;
      occurred = ground arith;
      has_case = ground arith;
    }

-- A message accepts the renewal by itself exactly if it is an acceptance, the switch is on, the
-- cutover is set and neither the clock nor either time of the message is before it, and the message
-- belongs to a case.
pub decide_action_iff :
    (input : RoutingInput) → (decide_action input ≡ RoutingAction.auto_accept) ↔ MayAccept input
unfolding decide_action
decide_action_iff input = (accepts-MayAccept input, from)
  where
    from : MayAccept input → decide_action input ≡ RoutingAction.auto_accept
    from m =
        rw (m.intent, m.enabled, m.is_cutover, m.has_case)
          (ground (arith, m.now, m.created, m.occurred))
