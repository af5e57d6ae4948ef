-- ===== src/Mail/Inbound/Safety.antt =====
-- What holds in every state that the workers of a mailbox reach.
pub mod Fetching
pub mod Storing
pub mod Turn
pub mod Swaps
pub mod Moves
pub mod Stable
pub mod Reached
use crm_nusrv.Base.{
  ℕ, suc, ◌≤◌, ◌<◌, ◌≡◌, ◌⊎◌, Bool, Option, none, some, String, List, [], ◌∷◌, ◌++◌, All, In,
}
use crm_nusrv.Store.{Db}
use crm_nusrv.Store.Rows.{EmailMessage}
use crm_nusrv.Mail.ReplyMatch.{rows}
use crm_nusrv.Mail.Inbound.{FetchedMailboxMessage, Source}
use crm_nusrv.Mail.Inbound.Worker.{
  Run, Pc, start, failing_closed, bootstrapping, establishing, lost_bootstrap, fetching, resetting,
  storing, advancing, reporting_failure, lost_cursor, done, thrown,
}
use crm_nusrv.Mail.Inbound.System.{System, Stored, IsAt, IsKeyed}

-- In the order of the UIDs.
abbrev pub Ascending : List FetchedMailboxMessage → Type 0
Ascending [] = Unit
Ascending (m ∷ l) = All (λ n. m.uid < n.uid) l × Ascending l

-- The next message of the mailbox after `uid`.
pub record IsNext (mailbox : List FetchedMailboxMessage) (uid : ℕ) (m : FetchedMailboxMessage)
    : Type 0 where
  pub there : In m mailbox
  pub after : uid < m.uid
  pub nearest : (n : FetchedMailboxMessage) → In n mailbox → uid < n.uid → m.uid ≤ n.uid

-- The messages that follow `uid` in the mailbox, none left out.
abbrev pub Follow : List FetchedMailboxMessage → ℕ → List FetchedMailboxMessage → Type 0
Follow mailbox uid [] = Unit
Follow mailbox uid (m ∷ rest) = IsNext mailbox uid m × Follow mailbox m.uid rest

module _ (source : Source) (baseline : ℕ) where
  -- Every message of the mailbox past the baseline, up to `uid`, is stored.
  abbrev pub Handled : List FetchedMailboxMessage → ℕ → Db → Type 0
  Handled mailbox uid db =
      (m : FetchedMailboxMessage)
      → In m mailbox
      → baseline < m.uid
      → m.uid ≤ uid
      → Stored source m.uid db

  -- What a worker in a run knows.
  pub record IsRun (s : System) (r : Run) : Type 0 where
    pub same_source : r.source ≡ source
    pub past : baseline ≤ r.expected_cursor
    pub known : r.expected_cursor < s.uid_next
    pub handled : Handled s.mailbox r.expected_cursor s.db

  abbrev pub Local : System → Pc → Type 0
  Local s (fetching r) = IsRun s r
  Local s (storing r messages count) = IsRun s r × Follow s.mailbox r.expected_cursor messages
  Local s (advancing r m rest count outcome) =
      IsRun s r × Follow s.mailbox r.expected_cursor (m ∷ rest) × Stored source m.uid s.db
  Local s _ = Unit

  pub record Inv (sha256_hex : String → String) (id_text : ℕ → String) (s : System) : Type 0 where
    pub ascending : Ascending s.mailbox
    pub below : All (λ m. m.uid < s.uid_next) s.mailbox
    pub cursor : ℕ
    pub at : IsAt source cursor s.db
    pub past : baseline ≤ cursor
    pub known : cursor < s.uid_next
    pub handled : Handled s.mailbox cursor s.db
    pub keyed :
        (row : EmailMessage) → In row (rows s.db.messages) → IsKeyed sha256_hex id_text source row
    pub local : (w : ℕ) → Local s (s.pc w)
