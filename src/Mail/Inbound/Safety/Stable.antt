-- ===== src/Mail/Inbound/Safety/Stable.antt =====
-- What the rest of the application, a restart and an arrival leave true.
use crm_nusrv.Base.{
  ℕ, suc, ◌≤◌, ◌<◌, ◌≡◌, ap, inl, inr, String, [], ◌∷◌, ◌++◌, arith, Bool-cases, ◌==◌,
}
use crm_nusrv.Store.{Db}
use crm_nusrv.Mail.Inbound.{FetchedMailboxMessage, Source}
use crm_nusrv.Mail.Inbound.Worker.{
  Run, Pc, start, failing_closed, bootstrapping, establishing, lost_bootstrap, fetching, resetting,
  storing, advancing, reporting_failure, lost_cursor, done, thrown,
}
use crm_nusrv.Mail.Inbound.System.{System, KeepsMail, update}
use crm_nusrv.Mail.Inbound.Safety.{Inv, IsRun, Local, Handled}
use crm_nusrv.Mail.Inbound.Safety.Fetching.{
  In-arrived, arrived-Follow, arrived-Ascending, arrived-below,
}
use crm_nusrv.Mail.Inbound.Safety.Turn.{kept-Local}

module _ (sha256_hex : String → String) (id_text : ℕ → String) (source : Source)
    (baseline : ℕ) where
  abbrev pub I : System → Type 0
  I s = Inv source baseline sha256_hex id_text s

  -- What a worker knows does not depend on where the others stand.
  elsewhere-IsRun :
      (s : System) (pcs : ℕ → Pc) (r : Run)
      → IsRun source baseline s r
      → IsRun source baseline (record s { pc = pcs }) r
  elsewhere-IsRun s pcs r run = record {
    same_source = run.same_source;
    past = run.past;
    known = run.known;
    handled = run.handled;
  }

  pub elsewhere :
      (s : System) (pcs : ℕ → Pc) (p : Pc)
      → Local source baseline s p
      → Local source baseline (record s { pc = pcs }) p
  elsewhere s pcs (fetching r) run = elsewhere-IsRun s pcs r run
  elsewhere s pcs (storing r l n) (run, f) = (elsewhere-IsRun s pcs r run, f)
  elsewhere s pcs (advancing r m l n o) (run, f, h) = (elsewhere-IsRun s pcs r run, f, h)
  elsewhere s pcs start l = tt
  elsewhere s pcs failing_closed l = tt
  elsewhere s pcs (bootstrapping folder) l = tt
  elsewhere s pcs (establishing v b) l = tt
  elsewhere s pcs lost_bootstrap l = tt
  elsewhere s pcs (resetting result) l = tt
  elsewhere s pcs (reporting_failure r m) l = tt
  elsewhere s pcs (lost_cursor r uid) l = tt
  elsewhere s pcs (done result) l = tt
  elsewhere s pcs thrown l = tt

  abbrev pub arrived : System → FetchedMailboxMessage → System
  arrived s m = record s { mailbox = s.mailbox ++ m ∷ []; uid_next = suc m.uid }

  pub arrived-Handled :
      (s : System) (m : FetchedMailboxMessage)
      → s.uid_next ≤ m.uid
      → (u : ℕ) → u < s.uid_next
      → Handled source baseline s.mailbox u s.db
      → Handled source baseline (s.mailbox ++ m ∷ []) u s.db
  arrived-Handled s m fresh u known h k i past upto = elim (In-arrived s.mailbox m k i) [
    | inl there ↦ h k there past upto
    | inr e ↦
        let same : k.uid ≡ m.uid = ap (λ (x : FetchedMailboxMessage). x.uid) e in
        absurd (omega (arith, same, upto, known, fresh))
  ]

  arrived-IsRun :
      (s : System) (m : FetchedMailboxMessage)
      → s.uid_next ≤ m.uid
      → (r : Run) → IsRun source baseline s r
      → IsRun source baseline (arrived s m) r
  arrived-IsRun s m fresh r run = record {
    same_source = run.same_source;
    past = run.past;
    known = omega (arith, run.known, fresh);
    handled = arrived-Handled s m fresh r.expected_cursor run.known run.handled;
  }

  -- What a worker knows stays true when a message arrives.
  pub arrived-Local :
      (s : System) (inv : I s) (m : FetchedMailboxMessage)
      → s.uid_next ≤ m.uid
      → (p : Pc) → Local source baseline s p
      → Local source baseline (arrived s m) p
  arrived-Local s inv m fresh (fetching r) run = arrived-IsRun s m fresh r run
  arrived-Local s inv m fresh (storing r l n) (run, f) =
      (arrived-IsRun s m fresh r run, arrived-Follow s.mailbox m s.uid_next inv.below fresh _ l f)
  arrived-Local s inv m fresh (advancing r k l n o) (run, f, h) = (
    arrived-IsRun s m fresh r run,
    arrived-Follow s.mailbox m s.uid_next inv.below fresh _ (k ∷ l) f,
    h,
  )
  arrived-Local s inv m fresh start l = tt
  arrived-Local s inv m fresh failing_closed l = tt
  arrived-Local s inv m fresh (bootstrapping folder) l = tt
  arrived-Local s inv m fresh (establishing v b) l = tt
  arrived-Local s inv m fresh lost_bootstrap l = tt
  arrived-Local s inv m fresh (resetting result) l = tt
  arrived-Local s inv m fresh (reporting_failure r k) l = tt
  arrived-Local s inv m fresh (lost_cursor r uid) l = tt
  arrived-Local s inv m fresh (done result) l = tt
  arrived-Local s inv m fresh thrown l = tt

  unfoldable pub arrived-Inv :
      (s : System) (inv : I s) (m : FetchedMailboxMessage) → s.uid_next ≤ m.uid → I (arrived s m)
  arrived-Inv s inv m fresh = record {
    ascending = arrived-Ascending s.mailbox m s.uid_next inv.below fresh inv.ascending;
    below = arrived-below s.mailbox m s.uid_next inv.below fresh;
    cursor = inv.cursor;
    at = inv.at;
    past = inv.past;
    known = omega (arith, inv.known, fresh);
    handled = arrived-Handled s m fresh inv.cursor inv.known inv.handled;
    keyed = inv.keyed;
    local = λ w. arrived-Local s inv m fresh (s.pc w) (inv.local w);
  }

  unfoldable pub others-Inv :
      (s : System) (inv : I s) (db : Db)
      → KeepsMail sha256_hex id_text source s.db db
      → I (record s { db = db })
  others-Inv s inv db k = record {
    ascending = inv.ascending;
    below = inv.below;
    cursor = inv.cursor;
    at = k.cursor inv.cursor inv.at;
    past = inv.past;
    known = inv.known;
    handled = λ m i a b. k.kept m.uid (inv.handled m i a b);
    keyed = k.keyed;
    local =
        λ w. kept-Local sha256_hex id_text source baseline s inv db (s.pc w) k.kept (inv.local w);
  }

  unfoldable pub restarted-Inv :
      (s : System) (inv : I s) (w : ℕ) → I (record s { pc = update s.pc w start })
  restarted-Inv s inv w = record {
    ascending = inv.ascending;
    below = inv.below;
    cursor = inv.cursor;
    at = inv.at;
    past = inv.past;
    known = inv.known;
    handled = inv.handled;
    keyed = inv.keyed;
    local = local;
  }
    where
      local :
          (j : ℕ)
          → Local source baseline (record s { pc = update s.pc w start }) (update s.pc w start j)
      local j = elim (Bool-cases (w == j)) [
        | inl same ↦ rw same tt
        | inr differ ↦ rw differ (elsewhere s (update s.pc w start) (s.pc j) (inv.local j))
      ]
