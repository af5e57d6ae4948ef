-- ===== src/Mail/Inbound/System.antt =====
-- Any number of workers that run `syncOneConfig` on one mailbox, in any order of their accesses, beside
-- its mail server and the rest of the application.
use crm_nusrv.Base.{
  ℕ, suc, ◌≤◌, ◌≡◌, ◌⊎◌, Bool, none, some, String, List, [], ◌∷◌, ◌++◌, In, find, filter, take, ltb,
  ◌==◌, if◌then◌else◌,
}
use crm_nusrv.Store.{Db}
use crm_nusrv.Store.Rows.{MailConfiguration, EmailMessage}
use crm_nusrv.Mail.ImapIdentity.{canonicalize_imap_folder, compute_imap_identity_key}
use crm_nusrv.Mail.ReplyMatch.{rows}
use crm_nusrv.Mail.Inbound.{FetchedMailboxMessage, Source, identity_of}
use crm_nusrv.Mail.Inbound.Worker.{
  Input, Run, Pc, start, fetching, FetchSinceResult, fetched, uidvalidity_changed, reader_throws,
  step,
}

-- `mailbox` holds the messages in the order of their UIDs, all below `uid_next`.
pub record System : Type 0 where
  pub db : Db
  pub pc : ℕ → Pc
  pub mailbox : List FetchedMailboxMessage
  pub uid_next : ℕ

abbrev pub update : (ℕ → Pc) → ℕ → Pc → ℕ → Pc
update f i a j = if i == j then a else f j

-- `DEFAULT_IMAP_SYNC_BATCH_SIZE`
abbrev pub batch_size : ℕ
batch_size = 100

abbrev pub is_after : ℕ → FetchedMailboxMessage → Bool
is_after uid m = ltb uid m.uid

-- The columns by which a row is told to hold the message `uid` of the source.
pub record IsRowOf (source : Source) (uid : ℕ) (row : EmailMessage) : Type 0 where
  pub mailbox : row.mail_configuration_id ≡ some source.box_id
  pub folder : row.imap_folder ≡ some source.folder
  pub uid_validity : row.imap_uid_validity ≡ some source.uid_validity
  pub number : row.imap_uid ≡ some uid

abbrev pub Stored : Source → ℕ → Db → Type 0
Stored source uid db = (row : EmailMessage) × In row (rows db.messages) × IsRowOf source uid row

-- The cursor of the mailbox stands at `uid`, in the folder and the UID validity of the source.
pub record IsAt (source : Source) (uid : ℕ) (db : Db) : Type 0 where
  pub config : MailConfiguration
  pub found : find source.box_id db.mail_configurations ≡ some config
  pub folder : canonicalize_imap_folder config.imap_folder ≡ source.folder
  pub uid_validity : config.last_sync_uid_validity ≡ some source.uid_validity
  pub at : config.last_sync_uid ≡ some uid

module _ (sha256_hex : String → String) (id_text : ℕ → String) (source : Source) where
  -- Every key of a row is the key of what the row holds.
  abbrev pub IsKeyed : EmailMessage → Type 0
  IsKeyed row =
      (key : String)
      → row.imap_identity_key ≡ some key
      → (from : Source) × (uid : ℕ) × (key
          ≡ compute_imap_identity_key sha256_hex (identity_of id_text from uid))
        × IsRowOf from uid row

  -- What the reader answers to `fetchMessagesSince`: the messages after the cursor, in the order of
  -- their UIDs and at most a batch of them, if the mailbox has the UID validity that is asked for.
  abbrev pub Answers : System → Run → FetchSinceResult → Type 0
  Answers s r answer =
      (answer ≡ reader_throws)
      ⊎ ((current : ℕ) × (answer ≡ uidvalidity_changed current))
      ⊎ ((r.source.uid_validity ≡ source.uid_validity)
          × (answer ≡ fetched (take batch_size (filter (is_after r.expected_cursor) s.mailbox))))

  -- What the rest of the application leaves as it is: the cursor, the rows that hold messages of the
  -- mailbox, and the sense of the keys. (The code writes these nowhere else.)
  pub record KeepsMail (db after : Db) : Type 0 where
    pub cursor : (uid : ℕ) → IsAt source uid db → IsAt source uid after
    pub kept : (uid : ℕ) → Stored source uid db → Stored source uid after
    pub keyed : (row : EmailMessage) → In row (rows after.messages) → IsKeyed row

  abbrev pub acted : System → ℕ → Input → System
  acted s w i =
      let (db', pc') = step sha256_hex id_text source.box_id i (s.pc w) s.db in
      record s { db = db'; pc = update s.pc w pc' }

  pub data Step (s : System) : System → Type 0 where
    act :
        (w : ℕ) (i : Input)
        → ((r : Run) → s.pc w ≡ fetching r → Answers s r i.fetch)
        → find i.draw.thread_id s.db.threads ≡ none
        → Step s (acted s w i)
    -- A message arrives, under a UID that was not used.
    deliver :
        (m : FetchedMailboxMessage)
        → s.uid_next ≤ m.uid
        → Step s (record s { mailbox = s.mailbox ++ m ∷ []; uid_next = suc m.uid })
    other : (db : Db) → KeepsMail s.db db → Step s (record s { db = db })
    -- A worker crashes, or takes up the mailbox once more.
    restart : (w : ℕ) → Step s (record s { pc = update s.pc w start })

  pub data Reach (first : System) : System → Type 0 where
    here : Reach first first
    next : {s t : System} → Reach first s → Step s t → Reach first t
