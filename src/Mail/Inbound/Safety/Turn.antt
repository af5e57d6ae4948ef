-- ===== src/Mail/Inbound/Safety/Turn.antt =====
-- What an access of a worker may do to the cursor and to what is stored.
use crm_nusrv.Mail.Inbound.Worker.{
  begin, Run, Pc, start, failing_closed, bootstrapping, establishing, lost_bootstrap, fetching,
  resetting, storing, advancing, reporting_failure, lost_cursor, done, thrown, after_fetch,
  FetchSinceResult, fetched, uidvalidity_changed, reader_throws, begin_at,
}
use crm_nusrv.Mail.Inbound.Sync.{cursor_of, established, classify_cursor_state}
use crm_nusrv.Base.{ℕ, ◌≡◌, ap, ◌∙◌, inl, inr, String, List, In, find, take, filter}
use crm_nusrv.Store.{Db}
use crm_nusrv.Store.Rows.{EmailMessage}
use crm_nusrv.Mail.ReplyMatch.{rows}
use crm_nusrv.Mail.Inbound.{FetchedMailboxMessage, Source}
use crm_nusrv.Mail.Inbound.System.{System, Stored, IsAt, IsKeyed, Answers, batch_size, is_after}
use crm_nusrv.Mail.Inbound.Safety.{Inv, IsRun, Local, IsNext}
use crm_nusrv.Mail.Inbound.Safety.Fetching.{fetched-Follow}

-- The cursor stays, or moves to the next message of the mailbox, which is stored.
pub data Advance (source : Source) (mailbox : List FetchedMailboxMessage) (db : Db) (uid : ℕ)
    : ℕ → Type 0 where
  stays : Advance source mailbox db uid uid
  moves :
      (m : FetchedMailboxMessage)
      → IsNext mailbox uid m
      → Stored source m.uid db
      → Advance source mailbox db uid m.uid

module _ (sha256_hex : String → String) (id_text : ℕ → String) (source : Source)
    (baseline : ℕ) where
  abbrev pub with_db : System → Db → System
  with_db s db = record s { db = db }

  pub record Turn (s : System) (u : ℕ) (after : Db) (p : Pc) : Type 0 where
    pub cursor : ℕ
    pub at : IsAt source cursor after
    pub advance : Advance source s.mailbox after u cursor
    pub kept : (uid : ℕ) → Stored source uid s.db → Stored source uid after
    pub keyed :
        (row : EmailMessage) → In row (rows after.messages) → IsKeyed sha256_hex id_text source row
    pub local : Local source baseline (with_db s after) p

  module _ (s : System) (inv : Inv source baseline sha256_hex id_text s) where
    pub IsAt-configs :
        (after : Db)
        → after.mail_configurations ≡ s.db.mail_configurations
        → IsAt source inv.cursor after
    IsAt-configs after same = record {
      config = inv.at.config;
      found = ap (find source.box_id) same ∙ inv.at.found;
      folder = inv.at.folder;
      uid_validity = inv.at.uid_validity;
      at = inv.at.at;
    }

    -- An access that writes no message.
    pub still :
        (after : Db) (p : Pc) (u : ℕ)
        → after.messages ≡ s.db.messages
        → IsAt source u after
        → Advance source s.mailbox after inv.cursor u
        → ((uid : ℕ) → Stored source uid s.db → Stored source uid after)
        → Local source baseline (with_db s after) p
        → Turn s inv.cursor after p
    still after p u same at advance kept local = record {
      cursor = u;
      at = at;
      advance = advance;
      kept = kept;
      keyed = λ row i. inv.keyed row (rw (← same) i);
      local = local;
    }

    same_stored :
        (after : Db)
        → after.messages ≡ s.db.messages
        → (uid : ℕ) → Stored source uid s.db
        → Stored source uid after
    same_stored after same uid (row, i, h) = (row, rw same i, h)

    -- An access that writes neither messages nor cursors.
    pub quiet :
        (after : Db) (p : Pc)
        → after.messages ≡ s.db.messages
        → after.mail_configurations ≡ s.db.mail_configurations
        → Local source baseline (with_db s after) p
        → Turn s inv.cursor after p
    quiet after p same configs local =
        still after p inv.cursor same (IsAt-configs after configs) stays (same_stored after same)
          local

    pub classified :
        classify_cursor_state inv.at.config ≡ established source.uid_validity inv.cursor
    unfolding classify_cursor_state
    classified = λ i. cursor_of (inv.at.uid_validity i) (inv.at.at i)

    pub begun :
        begin_at source.box_id (find source.box_id s.db.mail_configurations)
        ≡ begin source.box_id inv.at.config (established source.uid_validity inv.cursor)
    begun =
        ap (begin_at source.box_id) inv.at.found ∙ ap (begin source.box_id inv.at.config) classified

    pub started-Local :
        Local source baseline s
          (begin source.box_id inv.at.config (established source.uid_validity inv.cursor))
    started-Local = record {
      same_source = λ i. record {
        box_id = source.box_id;
        folder = inv.at.folder i;
        uid_validity = source.uid_validity;
      };
      past = inv.past;
      known = inv.known;
      handled = inv.handled;
    }

    pub fetched-Local :
        (r : Run) (answer : FetchSinceResult)
        → IsRun source baseline s r
        → Answers sha256_hex id_text source s r answer
        → Local source baseline s (after_fetch r answer)
    fetched-Local r (uidvalidity_changed current) run a = tt
    fetched-Local r reader_throws run a = tt
    fetched-Local r (fetched messages) run (inl e) = absurd (cc)
    fetched-Local r (fetched messages) run (inr (inl (current, e))) = absurd (cc)
    fetched-Local r (fetched messages) run (inr (inr (_, e))) =
        let same : messages ≡ take batch_size (filter (is_after r.expected_cursor) s.mailbox) =
          cc in
        (run, rw same (fetched-Follow s.mailbox batch_size r.expected_cursor inv.ascending))

    -- What a worker knows stays true while messages are stored.
    pub kept-IsRun :
        (after : Db) (r : Run)
        → ((uid : ℕ) → Stored source uid s.db → Stored source uid after)
        → IsRun source baseline s r
        → IsRun source baseline (with_db s after) r
    kept-IsRun after r kept run = record {
      same_source = run.same_source;
      past = run.past;
      known = run.known;
      handled = λ m i a b. kept m.uid (run.handled m i a b);
    }

    pub kept-Local :
        (after : Db) (p : Pc)
        → ((uid : ℕ) → Stored source uid s.db → Stored source uid after)
        → Local source baseline s p
        → Local source baseline (with_db s after) p
    kept-Local after (fetching r) kept run = kept-IsRun after r kept run
    kept-Local after (storing r l n) kept (run, f) = (kept-IsRun after r kept run, f)
    kept-Local after (advancing r m l n o) kept (run, f, h) =
        (kept-IsRun after r kept run, f, kept m.uid h)
    kept-Local after start kept l = tt
    kept-Local after failing_closed kept l = tt
    kept-Local after (bootstrapping folder) kept l = tt
    kept-Local after (establishing v b) kept l = tt
    kept-Local after lost_bootstrap kept l = tt
    kept-Local after (resetting result) kept l = tt
    kept-Local after (reporting_failure r m) kept l = tt
    kept-Local after (lost_cursor r uid) kept l = tt
    kept-Local after (done result) kept l = tt
    kept-Local after thrown kept l = tt
