-- ===== src/Mail/Inbound/Safety/Reached.antt =====
-- No message of a mailbox is lost, whatever the order of the workers' accesses.
use crm_nusrv.Mail.Inbound.Safety.Stable.{elsewhere, arrived-Inv, others-Inv, restarted-Inv}
use crm_nusrv.Base.{
  ltb, ℕ, ◌≤◌, ◌<◌, ◌≡◌, ◌⊎◌, sym, ap, ◌∙◌, inl, inr, some, String, All, In, arith, Bool-cases,
  ◌==◌,
}
use crm_nusrv.Store.{Db}
use crm_nusrv.Store.Rows.{EmailMessage, MailConfiguration}
use crm_nusrv.Mail.ReplyMatch.{rows}
use crm_nusrv.Mail.Inbound.{FetchedMailboxMessage, Source}
use crm_nusrv.Mail.Inbound.Worker.{Pc, start}
use crm_nusrv.Mail.Inbound.System.{
  System, Stored, IsAt, IsKeyed, Step, act, deliver, other, restart, Reach, here, next, update,
}
use crm_nusrv.Mail.Inbound.Safety.{Ascending, Inv, Local, Handled}
use crm_nusrv.Mail.Inbound.Safety.Fetching.{All-In}
use crm_nusrv.Mail.Inbound.Safety.Turn.{Advance, stays, moves, Turn, with_db, kept-Local}
use crm_nusrv.Mail.Inbound.Safety.Swaps.{next-Handled}
use crm_nusrv.Mail.Inbound.Safety.Moves.{step-Turn}

-- The cursor stands at the baseline, and nobody works.
pub record IsFresh (sha256_hex : String → String) (id_text : ℕ → String) (source : Source)
    (baseline : ℕ) (s : System) : Type 0 where
  pub ascending : Ascending s.mailbox
  pub below : All (λ m. m.uid < s.uid_next) s.mailbox
  pub at : IsAt source baseline s.db
  pub known : baseline < s.uid_next
  pub keyed :
      (row : EmailMessage) → In row (rows s.db.messages) → IsKeyed sha256_hex id_text source row
  pub idle : (w : ℕ) → s.pc w ≡ start

IsAt-one : {source : Source} {db : Db} (u v : ℕ) → IsAt source u db → IsAt source v db → u ≡ v
IsAt-one u v a b =
    let same : some a.config ≡ some b.config = sym a.found ∙ b.found in
    let one : a.config ≡ b.config = cc in
    let uids : some u ≡ some v =
      sym a.at ∙ (ap (λ (c : MailConfiguration). c.last_sync_uid) one ∙ b.at) in
    cc

module _ (sha256_hex : String → String) (id_text : ℕ → String) (source : Source)
    (baseline : ℕ) where
  IsFresh-Inv :
      {s : System}
      → IsFresh sha256_hex id_text source baseline s
      → Inv source baseline sha256_hex id_text s
  IsFresh-Inv {s} f = record {
    ascending = f.ascending;
    below = f.below;
    cursor = baseline;
    at = f.at;
    past = omega arith;
    known = f.known;
    handled = λ m i a b. absurd (omega (arith, a, b));
    keyed = f.keyed;
    local = λ w. rw (f.idle w) tt;
  }

  advanced-Handled :
      (s : System) (inv : Inv source baseline sha256_hex id_text s) (after : Db) (v : ℕ)
      → ((uid : ℕ) → Stored source uid s.db → Stored source uid after)
      → Advance source s.mailbox after inv.cursor v
      → Handled source baseline s.mailbox v after × (baseline ≤ v) × (v < s.uid_next)
  advanced-Handled s inv after v kept stays =
      (λ m i a b. kept m.uid (inv.handled m i a b), inv.past, inv.known)
  advanced-Handled s inv after v kept (moves m n h) = (
    next-Handled sha256_hex id_text source baseline s inv after inv.cursor m kept inv.handled n h,
    omega (arith, inv.past, n.after),
    All-In (λ x. x.uid < s.uid_next) s.mailbox m inv.below n.there,
  )

  Turn-Inv :
      (s : System) (inv : Inv source baseline sha256_hex id_text s) (w : ℕ) (after : Db) (p : Pc)
      → Turn sha256_hex id_text source baseline s inv.cursor after p
      → (inv' : Inv source baseline sha256_hex id_text
          (record s { db = after; pc = update s.pc w p }))
        × Advance source s.mailbox after inv.cursor inv'.cursor
  Turn-Inv s inv w after p t =
      let (handled, past, known) = advanced-Handled s inv after t.cursor t.kept t.advance in
      (
        record {
          ascending = inv.ascending;
          below = inv.below;
          cursor = t.cursor;
          at = t.at;
          past = past;
          known = known;
          handled = handled;
          keyed = t.keyed;
          local = local;
        },
        t.advance,
      )
    where
      local :
          (j : ℕ)
          → Local source baseline
              (record s { db = after; pc = update s.pc w p })
              (update s.pc w p j)
      local j = elim (Bool-cases (w == j)) [
        | inl same ↦ rw same (
            elsewhere sha256_hex id_text source baseline
              (with_db sha256_hex id_text source baseline s after) (update s.pc w p) p t.local)
        | inr differ ↦ rw differ (
            elsewhere sha256_hex id_text source baseline
              (with_db sha256_hex id_text source baseline s after) (update s.pc w p) (s.pc j)
              (kept-Local sha256_hex id_text source baseline s inv after (s.pc j) t.kept
                (inv.local j)))
      ]

  module _ (no_collision : (a b : String) → sha256_hex a ≡ sha256_hex b → a ≡ b)
      (texts : (a b : ℕ) → id_text a ≡ id_text b → a ≡ b) where
    Step-Inv :
        (s t : System)
        → Step sha256_hex id_text source s t
        → (inv : Inv source baseline sha256_hex id_text s)
        → (inv' : Inv source baseline sha256_hex id_text t) × Advance source t.mailbox t.db
            inv.cursor inv'.cursor
    unfolding arrived-Inv others-Inv restarted-Inv
    Step-Inv s t (act w i answers unused) inv = Turn-Inv s inv w _ _ (
        step-Turn sha256_hex id_text source baseline s inv no_collision texts i (s.pc w)
          (inv.local w) answers unused)
    Step-Inv s t (deliver m fresh) inv =
        (arrived-Inv sha256_hex id_text source baseline s inv m fresh, stays)
    Step-Inv s t (other db k) inv =
        (others-Inv sha256_hex id_text source baseline s inv db k, stays)
    Step-Inv s t (restart w) inv = (restarted-Inv sha256_hex id_text source baseline s inv w, stays)

    Reach-Inv :
        (first s : System)
        → IsFresh sha256_hex id_text source baseline first
        → Reach sha256_hex id_text source first s
        → Inv source baseline sha256_hex id_text s
    Reach-Inv first s fresh here = IsFresh-Inv fresh
    Reach-Inv first s fresh (next {s = t} r st) = (Step-Inv t s st (Reach-Inv first t fresh r)).0

    -- With a hash that has no collisions, and ids of which no two have one text, no message of a
    -- mailbox is lost: from a state in which the cursor stands at the baseline and nobody works,
    -- whatever the order of the accesses of any number of workers, whose reader answers with the
    -- next batch of the mailbox or fails, of arrivals, crashes and the writes of others that keep the
    -- rows of the mailbox, the cursor stands at or past the baseline, and a message of the mailbox
    -- past the baseline is stored, or the cursor has yet to come to it.
    pub no_mail_lost :
        (first s : System)
        → IsFresh sha256_hex id_text source baseline first
        → Reach sha256_hex id_text source first s
        → (m : FetchedMailboxMessage) → In m s.mailbox
        → baseline < m.uid
        → (uid : ℕ) × IsAt source uid s.db
          × (baseline ≤ uid)
          × ((uid < m.uid) ⊎ Stored source m.uid s.db)
    no_mail_lost first s fresh r m there past =
        let inv = Reach-Inv first s fresh r in
        (
          inv.cursor,
          inv.at,
          inv.past,
          elim (Bool-cases (ltb inv.cursor m.uid)) [
            | inl ahead ↦ inl (ground arith)
            | inr upto ↦ inr (inv.handled m there past (ground arith))
          ],
        )

    -- With a hash that has no collisions, and ids of which no two have one text, the cursor of a
    -- mailbox refines a pointer into it: every step from a state that is reached from a fresh one
    -- leaves the cursor where it is, or moves it to the next message of the mailbox, which is stored
    -- by then.
    pub cursor_refines :
        (first s t : System)
        → IsFresh sha256_hex id_text source baseline first
        → Reach sha256_hex id_text source first s
        → Step sha256_hex id_text source s t
        → (u v : ℕ) → IsAt source u s.db
        → IsAt source v t.db
        → Advance source t.mailbox t.db u v
    cursor_refines first s t fresh r st u v before after =
        let inv = Reach-Inv first s fresh r in
        let (inv', advance) = Step-Inv s t st inv in
        rw (IsAt-one u inv.cursor before inv.at) (rw (IsAt-one v inv'.cursor after inv'.at) advance)
