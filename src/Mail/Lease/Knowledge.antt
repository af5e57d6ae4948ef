-- ===== src/Mail/Lease/Knowledge.antt =====
-- What a worker knows of the row, and what one of its accesses may do to it.
use crm_nusrv.Base.{
  ℕ, ◌≤◌, ◌<◌, ◌≡◌, refl, ap, Bool, true, false, none, some, String, find, changed, arith, is_some,
  Bool-cases, inl, inr, ◌⊎◌,
}
use crm_nusrv.Store.{Db}
use crm_nusrv.Store.Enums.{is_processing}
use crm_nusrv.Store.Rows.{Outbox}
use crm_nusrv.Mail.Outbound.{Context, load_context, claimable, claimed_by}
use crm_nusrv.Mail.Outbound.Materialize.{Materialized}
use crm_nusrv.Mail.Outbound.Worker.{
  Pc, start, reading, loading, checking, rebinding, materializing, reloading, rechecking,
  rebinding_again, marking, sending, done, After, conflict, or_conflict,
}
use crm_nusrv.Mail.Lease.{held, is_reading}
use crm_nusrv.Mail.Outbound.Writes.{owned}

-- The worker with this token owns the row.
abbrev pub Owns : Outbox → ℕ → Type 0
Owns r token = r.last_attempt_at ≡ some token

-- A copy of the row that the worker took.
pub record IsCopy (row r : Outbox) : Type 0 where
  pub recipient : row.recipient ≡ r.recipient
  pub message : row.email_message_id ≡ r.email_message_id
  pub header : row.message_id_header ≡ r.message_id_header

-- The row has its message, addressed as the worker is about to send it.
pub record IsAddressed (r : Outbox) (m : Materialized) (recipient : String) : Type 0 where
  pub to : r.recipient ≡ recipient
  pub header : r.message_id_header ≡ some m.message_id_header
  pub message : is_some r.email_message_id ≡ true

-- What a worker knows of the row where it stands; but for `sending`, as long as it owns the row.
abbrev pub Knows : Outbox → Pc → Type 0
Knows r (checking job) = Owns r job.token → IsCopy job.context.row r
Knows r (rebinding job e) = Owns r job.token → IsCopy job.context.row r
Knows r (materializing job box recipient) =
    Owns r job.token
    → (r.recipient ≡ recipient)
      × (job.context.row.email_message_id ≡ r.email_message_id)
      × (job.context.row.message_id_header ≡ r.message_id_header)
Knows r (reloading job m recipient) = Owns r job.token → IsAddressed r m recipient
Knows r (rechecking job m recipient latest) =
    Owns r job.token → IsAddressed r m recipient × IsCopy latest.row r
Knows r (rebinding_again job m latest e) =
    Owns r job.token
    → (r.message_id_header ≡ some m.message_id_header) × (is_some r.email_message_id ≡ true)
Knows r (marking job m recipient) = Owns r job.token → IsAddressed r m recipient
Knows r (sending job m recipient) = IsAddressed r m recipient × (0 < r.attempts)
Knows r _ = Unit

-- The row has a Message-ID if and only if it has a message, and no attempt was made without one.
pub record IsSound (r : Outbox) : Type 0 where
  pub together : is_some r.email_message_id ≡ is_some r.message_id_header
  pub unsent : is_some r.email_message_id ≡ false → r.attempts ≡ 0

-- An attempted row keeps its identity and its attempts.
pub record IsPinned (r r' : Outbox) : Type 0 where
  pub recipient : r'.recipient ≡ r.recipient
  pub header : r'.message_id_header ≡ r.message_id_header
  pub message : is_some r'.email_message_id ≡ is_some r.email_message_id
  pub counted : r.attempts ≤ r'.attempts

-- What an access may do: claim the row, read the token, leave the row alone, or write it as its
-- owner.
pub data Turn (clock : ℕ) (r r' : Outbox) (p p' : Pc) : Type 0 where
  claims :
      p ≡ start
      → claimable clock r ≡ true
      → r' ≡ claimed_by clock r
      → p' ≡ reading clock
      → Turn clock r r' p p'
  reads :
      (now t : ℕ) → p ≡ reading now → r' ≡ r → Owns r t → p' ≡ loading t now → Turn clock r r' p p'
  leaves :
      r' ≡ r
      → (held p' ≡ none) ⊎ (held p' ≡ held p)
      → is_reading p' ≡ false
      → Knows r p'
      → Turn clock r r' p p'
  writes :
      (t : ℕ)
      → held p ≡ some t
      → Owns r t
      → is_processing r.status ≡ true
      → r'.last_attempt_at ≡ r.last_attempt_at
      → (held p' ≡ none) ⊎ ((held p' ≡ some t) × (is_processing r'.status ≡ true))
      → is_reading p' ≡ false
      → (0 < r.attempts → IsPinned r r')
      → IsSound r'
      → Knows r' p'
      → Turn clock r r' p p'

-- The row after an access, with what the access did.
abbrev pub TurnOf : ℕ → ℕ → Outbox → Pc → After → Type 0
TurnOf id clock r p a = (r' : Outbox) × (find id a.db.outbox ≡ some r') × Turn clock r r' p a.pc

pub owned-Owns :
    (token : ℕ) (r : Outbox) → owned token r ≡ true → Owns r token × (is_processing r.status ≡ true)
owned-Owns token r h = ground arith

pub load_context-row :
    (id : ℕ) (db : Db) (r : Outbox) (c : Context)
    → find id db.outbox ≡ some r
    → load_context id db ≡ some c
    → c.row ≡ r
unfolding load_context
load_context-row id db r c e h = ground arith

pub IsCopy-of_eq : {row r : Outbox} → row ≡ r → IsCopy row r
IsCopy-of_eq e = record {
  recipient = ap (λ (x : Outbox). x.recipient) e;
  message = ap (λ (x : Outbox). x.email_message_id) e;
  header = ap (λ (x : Outbox). x.message_id_header) e;
}

-- What a guarded write must keep, where its guard matches.
pub record Keeps (t : ℕ) (r r' : Outbox) (next : Pc) : Type 0 where
  pub owner : owned t r ≡ true
  pub lease : r'.last_attempt_at ≡ r.last_attempt_at
  pub goes_on : (held next ≡ none) ⊎ ((held next ≡ some t) × (is_processing r'.status ≡ true))
  pub no_read : is_reading next ≡ false
  pub pinned : 0 < r.attempts → IsPinned r r'
  pub sound : IsSound r'
  pub knows : Knows r' next

-- A write under a guard is a turn.
pub guard-turn :
    (id clock t : ℕ) (r : Outbox) (p next : Pc) (guard : Outbox → Bool) (f : Outbox → Outbox)
    (a : After)
    → held p ≡ some t
    → (guard r ≡ true → Keeps t r (f r) next)
    → find id a.db.outbox ≡ some (changed guard f r)
    → a.pc ≡ or_conflict next (guard r)
    → TurnOf id clock r p a
guard-turn id clock t r p next guard f a h keeps e q = elim (Bool-cases (guard r)) [
  | inl hit ↦
      let k = keeps hit in
      let (owns, processing) = owned-Owns t r k.owner in
      let at : a.pc ≡ next = ground arith in
      (
        f r,
        ground arith,
        rw at (writes t h owns processing k.lease k.goes_on k.no_read k.pinned k.sound k.knows),
      )
  | inr miss ↦
      let at : a.pc ≡ done conflict = ground arith in
      (r, ground arith, rw at (leaves refl (inl refl) refl tt))
]

-- An access that leaves the outbox alone is a turn, if what it learns holds.
pub quiet-turn :
    (id clock : ℕ) (r : Outbox) (p : Pc) (a : After)
    → find id a.db.outbox ≡ some r
    → (held a.pc ≡ none) ⊎ (held a.pc ≡ held p)
    → is_reading a.pc ≡ false
    → Knows r a.pc
    → TurnOf id clock r p a
quiet-turn id clock r p a e h n k = (r, e, leaves refl h n k)
