-- ===== src/Mail/Lease.antt =====
-- Any number of outbox workers at one row (the worker processes of `MailOutboundService`), in any
-- order of their accesses, beside the rest of the application.
pub mod Knowledge
pub mod Turns
pub mod Locals
pub mod Invariant
pub mod Moves
pub mod Steps
pub mod Safety
pub mod Examples
use crm_nusrv.Base.{
  ℕ, suc, ◌≤◌, ◌≡◌, Bool, true, false, Option, none, some, String, List, [], ◌++◌, find, ◌==◌,
  if◌then◌else◌,
}
use crm_nusrv.Store.{Db}
use crm_nusrv.Mail.SmtpErrors.{SmtpError}
use crm_nusrv.Mail.Outbound.Materialize.{Fresh}
use crm_nusrv.Mail.Outbound.Worker.{
  Job, Pc, start, reading, loading, checking, resolving, rebinding, materializing, reloading,
  rechecking, rebinding_again, marking, sending, recording, done, thrown, Transmission, Input, step,
}

pub record System : Type 0 where
  pub db : Db
  pub pc : ℕ → Pc
  pub clock : ℕ
  pub sent : List Transmission

abbrev pub update {ℓ} : {A : Type ℓ} → (ℕ → A) → ℕ → A → ℕ → A
update f i a j = if i == j then a else f j

abbrev pub is_start : Pc → Bool
is_start start = true
is_start _ = false

abbrev pub is_reading : Pc → Bool
is_reading (reading _) = true
is_reading _ = false

-- The lease token of a worker, from its claim to its last write. Between the claim and the read of
-- the token it is the clock that the claim wrote.
abbrev pub held : Pc → Option ℕ
held start = none
held (reading now) = some now
held (loading token now) = some token
held (checking job) = some job.token
held (resolving token for_good reason) = some token
held (rebinding job e) = some job.token
held (materializing job box recipient) = some job.token
held (reloading job m recipient) = some job.token
held (rechecking job m recipient latest) = some job.token
held (rebinding_again job m latest e) = some job.token
held (marking job m recipient) = some job.token
held (sending job m recipient) = some job.token
held (recording job m error) = some job.token
held (done outcome) = none
held thrown = none

-- No row is claimed while another worker is between its claim and the read of its token. (The lease
-- lasts ten minutes, so this fails only if that read takes longer.)
abbrev pub IsPrompt : System → ℕ → Type 0
IsPrompt s w = is_start (s.pc w) ≡ true → (j : ℕ) → is_reading (s.pc j) ≡ false

module _ (node_env : Option String) (id : ℕ) where
  abbrev pub acted : System → ℕ → Fresh → Option SmtpError → System
  acted s w fresh smtp =
      let after =
        step node_env id (record { clock = s.clock; fresh = fresh; smtp = smtp }) (s.pc w) s.db in
      record {
        db = after.db;
        pc = update s.pc w after.pc;
        clock = s.clock;
        sent = s.sent ++ after.transmitted;
      }

  pub data Step (s : System) : System → Type 0 where
    act :
        (w : ℕ) (fresh : Fresh) (smtp : Option SmtpError)
        → IsPrompt s w
        → Step s (acted s w fresh smtp)
    wait : (t : ℕ) → s.clock ≤ t → Step s (record s { clock = t })
    -- The rest of the application, and workers at other rows, may write anything but this row.
    other : (db : Db) → find id db.outbox ≡ find id s.db.outbox → Step s (record s { db = db })
    -- A worker crashes, or takes up the row once more.
    restart : (w : ℕ) → Step s (record s { pc = update s.pc w start })

  pub data Reach (first : System) : System → Type 0 where
    here : Reach first first
    next : {s t : System} → Reach first s → Step s t → Reach first t
