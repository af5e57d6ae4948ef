-- ===== src/Mail/Lease/Safety.antt =====
-- What the lease of the outbox promises, in every state that is reached.
use crm_nusrv.Base.{ℕ, ◌+◌, ◌≤◌, ◌≡◌, sym, ap, ◌∙◌, false, Option, some, String, All, arith, find}
use crm_nusrv.Store.Rows.{Outbox}
use crm_nusrv.Mail.SmtpErrors.{SmtpError}
use crm_nusrv.Mail.Outbound.{claimable, stale_processing_lease_ms}
use crm_nusrv.Mail.Outbound.Materialize.{Fresh}
use crm_nusrv.Mail.Outbound.Worker.{Pc, start}
use crm_nusrv.Mail.Lease.{System, held, IsPrompt, acted, Reach}
use crm_nusrv.Mail.Lease.Knowledge.{Owns, Turn, claims, reads, leaves, writes}
use crm_nusrv.Mail.Lease.Locals.{IsOurs}
use crm_nusrv.Mail.Lease.Invariant.{Inv, IsFresh, IsFresh-Inv}
use crm_nusrv.Mail.Lease.Steps.{Reach-Inv, acted-Inv}

-- The worker holds the row's lease.
abbrev pub HasLease : ℕ → System → ℕ → Type 0
HasLease id s w =
    (r : Outbox) × (token : ℕ) × (find id s.db.outbox ≡ some r)
    × (held (s.pc w) ≡ some token)
    × Owns r token

-- An access of a worker whose token is not the row's leaves the row.
unmoved :
    {clock : ℕ} {r r' : Outbox} {p p' : Pc} {token : ℕ}
    → held p ≡ some token
    → ¬ Owns r token
    → Turn clock r r' p p'
    → r' ≡ r
unmoved h lost (claims e _ _ _) = let held_start : held start ≡ some _ = rw e at h in absurd cc
unmoved h lost (reads _ _ _ e _ _) = e
unmoved h lost (leaves e _ _ _) = e
unmoved h lost (writes t has owns _ _ _ _ _ _ _) = absurd (lost (owns ∙ (sym has ∙ h)))

module _ (node_env : Option String) (id : ℕ) (first s : System) (r : Outbox)
    (fresh : IsFresh id first r) (reached : Reach node_env id first s) where
  same_row : (r' : Outbox) → find id s.db.outbox ≡ some r' → Inv id s r'
  same_row r' found =
      let (m, inv) = Reach-Inv node_env id first s r (IsFresh-Inv fresh) reached in
      let there : some m ≡ some r' = sym inv.stored ∙ found in
      let same : m ≡ r' = cc in rw (← same) inv

  -- In every state that the workers reach from one where none is at work, by accesses such that
  -- no claim falls between another claim and its read of the token, at most one worker holds the
  -- lease of a row, however the accesses of the workers, the clock, crashes and the rest of the
  -- application interleave.
  pub lease_exclusive : (i j : ℕ) → HasLease id s i → HasLease id s j → i ≡ j
  lease_exclusive i j (row, t, found, h, o) (row', u, found', k, o') =
      let inv = same_row row found in
      let there : some row ≡ some row' = sym found ∙ found' in
      let same : row.last_attempt_at ≡ row'.last_attempt_at = cc in
      inv.alone i j t h (k ∙ (sym o' ∙ (sym same ∙ o))) o

  -- In every state that the workers reach from one where none is at work, by accesses such that
  -- no claim falls between another claim and its read of the token, a row whose lease a worker
  -- holds cannot be claimed until ten minutes have passed since the claim.
  pub lease_guards :
      (i token : ℕ) (row : Outbox)
      → find id s.db.outbox ≡ some row
      → held (s.pc i) ≡ some token
      → Owns row token
      → s.clock ≤ token + stale_processing_lease_ms
      → claimable s.clock row ≡ false
  unfolding claimable
  lease_guards i token row found h owns soon =
      ground (arith, ((same_row row found).local i).busy token h owns)

  -- In every state that the workers reach from one where none is at work, by accesses such that
  -- no claim falls between another claim and its read of the token, an access of a worker whose
  -- token is not the row's any more leaves the row as it is.
  pub stale_harmless :
      (w token : ℕ) (row : Outbox) (ids : Fresh) (smtp : Option SmtpError)
      → IsPrompt s w
      → find id s.db.outbox ≡ some row
      → held (s.pc w) ≡ some token
      → ¬ Owns row token
      → find id (acted node_env id s w ids smtp).db.outbox ≡ some row
  stale_harmless w token row ids smtp prompt found h lost =
      let (row', turn, inv) = acted-Inv node_env id s row w ids smtp (same_row row found) prompt in
      inv.stored ∙ ap some (unmoved h lost turn)

  -- In every state that the workers reach from one where none is at work, by accesses such that
  -- no claim falls between another claim and its read of the token, every message that was handed
  -- to the transport for the row has the Message-ID and the recipient that the row has now, and
  -- the row counts an attempt.
  pub sent_once_addressed :
      (row : Outbox) → find id s.db.outbox ≡ some row → All (IsOurs row) s.sent
  sent_once_addressed row found = (same_row row found).ours
