-- ===== src/Mail/Lease/Locals.antt =====
-- What holds of each worker beside the row, and how it survives the accesses of the others.
use crm_nusrv.Base.{
  ℕ, suc, ◌≤◌, ◌<◌, ◌≡◌, refl, sym, ◌∙◌, true, Option, none, some, List, [], ◌∷◌, All, arith, inl,
  inr, Option-cases,
}
use crm_nusrv.Store.Enums.{is_processing}
use crm_nusrv.Store.Rows.{Outbox}
use crm_nusrv.Mail.Outbound.{claimable, claimed_by}
use crm_nusrv.Mail.Outbound.Worker.{
  Pc, start, reading, loading, checking, resolving, rebinding, materializing, reloading, rechecking,
  rebinding_again, marking, sending, recording, done, thrown, Transmission,
}
use crm_nusrv.Mail.Lease.{held}
use crm_nusrv.Mail.Lease.Knowledge.{Owns, Knows, IsPinned}

abbrev pub level : Option ℕ → ℕ
level none = 0
level (some t) = suc t

pub record Local (r : Outbox) (p : Pc) : Type 0 where
  pub behind : (t : ℕ) → held p ≡ some t → suc t ≤ level r.last_attempt_at
  pub busy : (t : ℕ) → held p ≡ some t → Owns r t → is_processing r.status ≡ true
  pub recent : (now : ℕ) → p ≡ reading now → Owns r now
  pub informed : Knows r p

pub start-Local : (r : Outbox) → Local r start
start-Local r = record { behind = λ t h. cc; busy = λ t h. cc; recent = λ now h. cc; informed = tt }

module _ {r r' : Outbox} (pinned : 0 < r.attempts → IsPinned r r') where
  -- A worker that does not own the row any more need not know it.
  pub Knows-IsPinned : (p : Pc) → ((t : ℕ) → held p ≡ some t → ¬ Owns r' t) → Knows r p → Knows r' p
  Knows-IsPinned start out k = tt
  Knows-IsPinned (reading now) out k = tt
  Knows-IsPinned (loading token now) out k = tt
  Knows-IsPinned (checking job) out k = λ o. absurd (out job.token refl o)
  Knows-IsPinned (resolving token for_good reason) out k = tt
  Knows-IsPinned (rebinding job e) out k = λ o. absurd (out job.token refl o)
  Knows-IsPinned (materializing job box recipient) out k = λ o. absurd (out job.token refl o)
  Knows-IsPinned (reloading job m recipient) out k = λ o. absurd (out job.token refl o)
  Knows-IsPinned (rechecking job m recipient latest) out k = λ o. absurd (out job.token refl o)
  Knows-IsPinned (rebinding_again job m latest e) out k = λ o. absurd (out job.token refl o)
  Knows-IsPinned (marking job m recipient) out k = λ o. absurd (out job.token refl o)
  Knows-IsPinned (sending job m recipient) out (a, positive) =
      let same = pinned positive in
      (
        record {
          to = same.recipient ∙ a.to;
          header = same.header ∙ a.header;
          message = same.message ∙ a.message;
        },
        omega (arith, same.counted),
      )
  Knows-IsPinned (recording job m error) out k = tt
  Knows-IsPinned (done outcome) out k = tt
  Knows-IsPinned thrown out k = tt

  -- The other workers, where the lease stays.
  pub Local-IsPinned :
      (p : Pc)
      → r'.last_attempt_at ≡ r.last_attempt_at
      → ((t : ℕ) → held p ≡ some t → ¬ Owns r' t)
      → Local r p
      → Local r' p
  Local-IsPinned p same out l = record {
    behind = λ t h. rw same (l.behind t h);
    busy = λ t h o. absurd (out t h o);
    recent = λ now e. same ∙ l.recent now e;
    informed = Knows-IsPinned p out l.informed;
  }

module _ (clock : ℕ) (r : Outbox) (past : level r.last_attempt_at ≤ suc clock)
    (free : claimable clock r ≡ true) where
  -- Nobody holds the token that a claim gives.
  pub claimed-new : (p : Pc) (t : ℕ) → Local r p → held p ≡ some t → ¬ Owns (claimed_by clock r) t
  unfolding claimable
  claimed-new p t l h o = elim (Option-cases r.last_attempt_at) [
    | inl gone ↦ ground (arith, l.behind t h)
    | inr (last, owns) ↦ ground (arith, l.behind t h, l.busy last)
  ]

  pub claimed-IsPinned : IsPinned r (claimed_by clock r)
  claimed-IsPinned = record {
    recipient = refl;
    header = refl;
    message = refl;
    counted = omega arith;
  }

  pub Local-claimed :
      (p : Pc) → ((now : ℕ) → ¬ (p ≡ reading now)) → Local r p → Local (claimed_by clock r) p
  Local-claimed p quiet l = record {
    behind = λ t h. omega (arith, l.behind t h);
    busy = λ t h o. refl;
    recent = λ now e. absurd (quiet now e);
    informed = Knows-IsPinned (λ _. claimed-IsPinned) p (λ t h. claimed-new p t l h) l.informed;
  }

-- A message that was sent under the row's identity.
pub record IsOurs (r : Outbox) (m : Transmission) : Type 0 where
  pub attempted : 0 < r.attempts
  pub header : r.message_id_header ≡ some m.message_id
  pub to : m.to_address ≡ r.recipient

pub All-IsOurs :
    {r r' : Outbox}
    → (0 < r.attempts → IsPinned r r')
    → (l : List Transmission) → All (IsOurs r) l
    → All (IsOurs r') l
All-IsOurs pinned [] a = tt
All-IsOurs pinned (m ∷ l) (o, a) =
    let same = pinned o.attempted in
    (
      record {
        attempted = omega (arith, same.counted, o.attempted);
        header = same.header ∙ o.header;
        to = o.to ∙ sym same.recipient;
      },
      All-IsOurs pinned l a,
    )
