-- ===== src/Mail/Lease/Steps.antt =====
-- The invariant holds in every state that is reached.
use crm_nusrv.Base.{
  ℕ, ◌≡◌, sym, ◌∙◌, true, false, Option, none, some, List, [], ◌∷◌, ◌++◌, All, arith, String, ◌==◌,
}
use crm_nusrv.Store.{Db}
use crm_nusrv.Store.Rows.{Outbox}
use crm_nusrv.Mail.SmtpErrors.{SmtpError}
use crm_nusrv.Mail.Outbound.Materialize.{Fresh}
use crm_nusrv.Mail.Outbound.Worker.{
  Pc, start, reading, loading, checking, resolving, rebinding, materializing, reloading, rechecking,
  rebinding_again, marking, sending, recording, done, thrown, Transmission, Input, step,
}
use crm_nusrv.Mail.Lease.{
  System, IsPrompt, acted, Step, act, wait, other, restart, Reach, here, next,
}
use crm_nusrv.Mail.Lease.Knowledge.{Knows, Turn}
use crm_nusrv.Mail.Lease.Turns.{step-TurnOf}
use crm_nusrv.Mail.Lease.Locals.{start-Local, IsOurs}
use crm_nusrv.Mail.Lease.Invariant.{Inv, Inv-moved}
use crm_nusrv.Mail.Lease.Moves.{Turn-Inv}

All-append :
    (r : Outbox) (l l' : List Transmission)
    → All (IsOurs r) l
    → All (IsOurs r) l'
    → All (IsOurs r) (l ++ l')
All-append r [] l' a b = b
All-append r (m ∷ l) l' (o, a) b = (o, All-append r l l' a b)

module _ (node_env : Option String) (id : ℕ) where
  -- What a worker sends is addressed as the row is.
  step-IsOurs :
      (i : Input) (p : Pc) (db : Db) (r : Outbox)
      → Knows r p
      → All (IsOurs r) (step node_env id i p db).transmitted
  unfolding step
  step-IsOurs i start db r k = tt
  step-IsOurs i (reading now) db r k = tt
  step-IsOurs i (loading token now) db r k = tt
  step-IsOurs i (checking job) db r k = tt
  step-IsOurs i (resolving token true reason) db r k = tt
  step-IsOurs i (resolving token false reason) db r k = tt
  step-IsOurs i (rebinding job e) db r k = tt
  step-IsOurs i (materializing job box recipient) db r k = tt
  step-IsOurs i (reloading job m recipient) db r k = tt
  step-IsOurs i (rechecking job m recipient latest) db r k = tt
  step-IsOurs i (rebinding_again job m latest e) db r k = tt
  step-IsOurs i (marking job m recipient) db r k = tt
  step-IsOurs i (sending job m recipient) db r (a, positive) =
      (record { attempted = positive; header = a.header; to = sym a.to }, tt)
  step-IsOurs i (recording job m none) db r k = tt
  step-IsOurs i (recording job m (some error)) db r k = tt
  step-IsOurs i (done outcome) db r k = tt
  step-IsOurs i thrown db r k = tt

  -- The row after an access, with what the access did.
  pub acted-Inv :
      (s : System) (r : Outbox) (w : ℕ) (fresh : Fresh) (smtp : Option SmtpError)
      → Inv id s r
      → IsPrompt s w
      → (r' : Outbox) × Turn s.clock r r' (s.pc w) ((acted node_env id s w fresh smtp).pc w)
        × Inv id (acted node_env id s w fresh smtp) r'
  acted-Inv s r w fresh smtp inv prompt =
      let i : Input = record { clock = s.clock; fresh = fresh; smtp = smtp } in
      let knows = (inv.local w).informed in
      let (r', found, turn) =
        step-TurnOf node_env id i s.db r inv.stored inv.sound (s.pc w) knows in
      let here_moved : (w == w) ≡ true = ground arith in
      (
        r',
        rw here_moved turn,
        Turn-Inv id s r inv w (step node_env id i (s.pc w) s.db).db
            (s.sent ++ (step node_env id i (s.pc w) s.db).transmitted)
            (All-append r s.sent (step node_env id i (s.pc w) s.db).transmitted inv.ours
              (step-IsOurs i (s.pc w) s.db r knows))
            r' (step node_env id i (s.pc w) s.db).pc prompt found turn,
      )

  Step-Inv :
      (s t : System) (r : Outbox) → Inv id s r → Step node_env id s t → (r' : Outbox) × Inv id t r'
  Step-Inv s t r inv (act w fresh smtp prompt) =
      let (r', _, kept) = acted-Inv s r w fresh smtp inv prompt in (r', kept)
  Step-Inv s t r inv (wait clock later) = (
    r,
    record {
      stored = inv.stored;
      past = omega (arith, inv.past);
      local = inv.local;
      alone = inv.alone;
      sound = inv.sound;
      ours = inv.ours;
    },
  )
  Step-Inv s t r inv (other db same) = (
    r,
    record {
      stored = same ∙ inv.stored;
      past = inv.past;
      local = inv.local;
      alone = inv.alone;
      sound = inv.sound;
      ours = inv.ours;
    },
  )
  Step-Inv s t r inv (restart w) = (
    r,
    Inv-moved id s r r w start s.db s.sent inv.stored inv.past (start-Local r) (λ j _. inv.local j)
        (λ j t _ h. absurd cc) inv.alone inv.sound inv.ours,
  )

  pub Reach-Inv :
      (s t : System) (r : Outbox) → Inv id s r → Reach node_env id s t → (r' : Outbox) × Inv id t r'
  Reach-Inv s t r inv here = (r, inv)
  Reach-Inv s t r inv (next {s = m} before st) =
      let (r', kept) = Reach-Inv s m r inv before in Step-Inv m t r' kept st
