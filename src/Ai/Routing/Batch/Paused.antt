-- ===== src/Ai/Routing/Batch/Paused.antt =====
-- While the switch for automatic acceptance is off, a batch accepts nothing.
use crm_nusrv.Base.{
  ℕ, suc, ◌+◌, ◌≤◌, ◌≡◌, refl, sym, ap, ◌∙◌, inl, inr, false, some, [], ◌∷◌, Table, find, matches,
  find-update_many, arith, Bool-cases, Option-cases, length, take, filter, length-take-le,
}
use crm_nusrv.Base.Results.{Result, ok, find_or_throw, ◌>>=◌, answer-chain, find_or_throw-eq-ok}
use crm_nusrv.Store.{Db}
use crm_nusrv.Store.Rows.{RoutingDecision}
use crm_nusrv.Ai.Routing.{
  RoutingOutcome, succeeded, skipped, failed, not_claimed, conflict, paused, routing_claimable,
  routing_claimed,
}
use crm_nusrv.Ai.Routing.Process.{is_auto, peeked, token_of, execute, claim_routing, process_one}
use crm_nusrv.Ai.Routing.Review.{execute_human_review-LeavesOthers}
use crm_nusrv.Ai.Routing.Batch.{
  AiRoutingBatchSummary, Moment, is_routing_candidate, count_routed, routing_candidates, route_all,
  route_batch, process_at, scan_batch_size,
}

-- All outcomes together
abbrev pub routed_total : AiRoutingBatchSummary → ℕ
routed_total s =
    s.succeeded_count + s.skipped_count + s.failed_count + s.not_claimed_count + s.conflict_count
    + s.paused_count

-- The switch is off, and others leave the cases alone.
pub record IsOff (m : Moment) : Type 0 where
  pub off : m.auto_accept_enabled ≡ false
  pub at_reads : (db : Db) → (m.others.at_reads db).renewal_cases ≡ db.renewal_cases
  pub at_commit : (db : Db) → (m.others.at_commit db).renewal_cases ≡ db.renewal_cases

executed :
    (id : ℕ) (d : RoutingDecision) (token now : ℕ) (seen db later : Db) {db' : Db}
    {o : RoutingOutcome}
    → is_auto d.action ≡ false
    → execute id d token now seen db later ≡ ok (db', o)
    → db'.renewal_cases ≡ db.renewal_cases
executed id d token now seen db later by_staff h =
    (execute_human_review-LeavesOthers id d token now seen db (rw by_staff at h)).0.cases

claimed-action :
    (id now : ℕ) (db : Db) (d : RoutingDecision)
    → peeked (find id db.routing) ≡ false
    → find id (claim_routing id now db).routing ≡ some d
    → is_auto d.action ≡ false
claimed-action id now db d by_staff found =
    let moved = find-update_many id id (routing_claimable now) (routing_claimed now) db.routing in
    elim (Option-cases (find id db.routing)) [
      | inl gone ↦ absurd (ground (arith, moved, gone))
      | inr (r, there) ↦ ground (arith, moved, there)
    ]

-- The part of `processOne` after the claim.
claimed_off :
    (id : ℕ) (m : Moment) (db : Db) {db' : Db} {o : RoutingOutcome}
    → IsOff m
    → peeked (find id db.routing) ≡ false
    → (find_or_throw id (claim_routing id m.clock db).routing >>= λ decision.
        token_of decision.last_attempt_at >>= λ token.
        let seen = m.others.at_reads (claim_routing id m.clock db) in
        execute id decision token m.clock seen
          (m.others.at_commit seen)
          (m.others.at_abort (m.others.at_commit seen)))
      ≡ ok (db', o)
    → db'.renewal_cases ≡ db.renewal_cases
claimed_off id m db off by_staff h =
    let claimed = claim_routing id m.clock db in
    let (d, found, h1) = answer-chain _ (find_or_throw id claimed.routing) h in
    let (token, held, h2) = answer-chain _ (token_of d.last_attempt_at) h1 in
    let staff =
      claimed-action id m.clock db d by_staff (find_or_throw-eq-ok id claimed.routing found) in
    executed id d token m.clock _ _ _ staff h2
    ∙ (off.at_commit (m.others.at_reads claimed) ∙ off.at_reads claimed)

process_one_off :
    (id : ℕ) (m : Moment) (db : Db) {db' : Db} {o : RoutingOutcome}
    → IsOff m
    → process_one id m.auto_accept_enabled m.clock m.others db ≡ ok (db', o)
    → db'.renewal_cases ≡ db.renewal_cases
unfolding process_one
process_one_off id m db {db'} {o} off h = elim (Bool-cases (peeked (find id db.routing))) [
  | inl auto ↦ ground (arith, off.off, auto)
  | inr by_staff ↦ elim (Bool-cases (matches id (routing_claimable m.clock) db.routing)) [
    | inr busy ↦ ground (arith, by_staff, busy)
    | inl free ↦ claimed_off id m db off by_staff (rw free at (rw by_staff at h))
  ]
]

routed_total-count :
    (o : RoutingOutcome) (s : AiRoutingBatchSummary)
    → routed_total (count_routed o s) ≡ suc (routed_total s)
routed_total-count succeeded s = omega arith
routed_total-count skipped s = omega arith
routed_total-count failed s = omega arith
routed_total-count not_claimed s = omega arith
routed_total-count conflict s = omega arith
routed_total-count paused s = omega arith

candidates-count :
    (o : RoutingOutcome) (s : AiRoutingBatchSummary) → (count_routed o s).candidates ≡ s.candidates
candidates-count succeeded s = refl
candidates-count skipped s = refl
candidates-count failed s = refl
candidates-count not_claimed s = refl
candidates-count conflict s = refl
candidates-count paused s = refl

-- What a loop over so many decisions leaves alone, and what it counts.
record IsIdle (n : ℕ) (db db' : Db) (s s' : AiRoutingBatchSummary) : Type 0 where
  cases : db'.renewal_cases ≡ db.renewal_cases
  counts : routed_total s' ≡ routed_total s + n
  number : s'.candidates ≡ s.candidates

module _ (moments : ℕ → Moment) (off : (k : ℕ) → IsOff (moments k)) where
  told :
      {a b : Db × AiRoutingBatchSummary}
      → ◌≡◌ {A = Result (Db × AiRoutingBatchSummary)} (ok a) (ok b)
      → a ≡ b
  told h = cc

  route_all-IsIdle :
      (l : Table RoutingDecision) (db : Db) (s : AiRoutingBatchSummary) {db' : Db}
      {s' : AiRoutingBatchSummary}
      → route_all moments l db s ≡ ok (db', s')
      → IsIdle (length l) db db' s s'
  unfolding route_all
  route_all-IsIdle [] db s h =
      let e = told h in
      record {
        cases = ap (λ (r : Db × AiRoutingBatchSummary). r.0.renewal_cases) (sym e);
        counts =
            let t = ap (λ (r : Db × AiRoutingBatchSummary). routed_total r.1) e in omega (arith, t);
        number = ap (λ (r : Db × AiRoutingBatchSummary). r.1.candidates) (sym e);
      }
  route_all-IsIdle ((k, d) ∷ l) db s h =
      let ((after, o), did, rest) = answer-chain _ (process_at moments k db) h in
      let i = route_all-IsIdle l after (count_routed o s) rest in
      record {
        cases = i.cases ∙ process_one_off k (moments k) db (off k) did;
        counts = let c = routed_total-count o s in omega (arith, c, i.counts);
        number = i.number ∙ candidates-count o s;
      }

  -- While the switch for automatic acceptance is off, and others leave the cases alone, a batch of
  -- routing decisions that ends without an exception changes no renewal case; it counts each of its
  -- candidates once, at most a hundred.
  pub route_batch_off :
      (now : ℕ) (db : Db) {db' : Db} {s : AiRoutingBatchSummary}
      → route_batch moments false now db ≡ ok (db', s)
      → (db'.renewal_cases ≡ db.renewal_cases)
        × (routed_total s ≡ s.candidates)
        × (s.candidates ≤ scan_batch_size)
  unfolding route_batch routing_candidates
  route_batch_off now db h =
      let i = route_all-IsIdle (routing_candidates false now db) db _ h in
      let waiting = filter (is_routing_candidate false now) db.routing in
      let most : length (take scan_batch_size waiting) ≤ scan_batch_size =
        length-take-le scan_batch_size waiting in
      (i.cases, omega (arith, i.counts, i.number), omega (arith, i.number, most))
