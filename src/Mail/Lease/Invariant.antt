-- ===== src/Mail/Lease/Invariant.antt =====
-- What holds of the workers and the row in every state that is reached.
use crm_nusrv.Base.{
  ℕ, suc, ◌≤◌, ◌≡◌, false, some, List, [], All, arith, inl, inr, find, ◌==◌, Bool-cases,
}
use crm_nusrv.Store.{Db}
use crm_nusrv.Store.Rows.{Outbox}
use crm_nusrv.Mail.Outbound.Worker.{Pc, start, Transmission}
use crm_nusrv.Mail.Lease.{System, update, held}
use crm_nusrv.Mail.Lease.Knowledge.{Owns, IsSound}
use crm_nusrv.Mail.Lease.Locals.{level, Local, start-Local, IsOurs}

pub record Inv (id : ℕ) (s : System) (r : Outbox) : Type 0 where
  pub stored : find id s.db.outbox ≡ some r
  pub past : level r.last_attempt_at ≤ suc s.clock
  pub local : (i : ℕ) → Local r (s.pc i)
  pub alone : (i j t : ℕ) → held (s.pc i) ≡ some t → held (s.pc j) ≡ some t → Owns r t → i ≡ j
  pub sound : IsSound r
  pub ours : All (IsOurs r) s.sent

-- Nobody works on the row, and nothing was sent for it.
pub record IsFresh (id : ℕ) (s : System) (r : Outbox) : Type 0 where
  pub stored : find id s.db.outbox ≡ some r
  pub past : level r.last_attempt_at ≤ suc s.clock
  pub idle : (i : ℕ) → s.pc i ≡ start
  pub sound : IsSound r
  pub unsent : s.sent ≡ []

pub IsFresh-Inv : {id : ℕ} {s : System} {r : Outbox} → IsFresh id s r → Inv id s r
IsFresh-Inv {r} f = record {
  stored = f.stored;
  past = f.past;
  local = λ i. rw (f.idle i) (start-Local r);
  alone = λ i j t h. let none_held : held start ≡ some t = rw (f.idle i) at h in absurd cc;
  sound = f.sound;
  ours = rw f.unsent tt;
}

-- The worker `w` moves, and the row with it.
abbrev pub moved : System → ℕ → Pc → Db → List Transmission → System
moved s w p' db sent = record { db = db; pc = update s.pc w p'; clock = s.clock; sent = sent }

module _ (id : ℕ) (s : System) (r r' : Outbox) (w : ℕ) (p' : Pc) (db : Db)
    (sent : List Transmission) (found : find id db.outbox ≡ some r') where
  pub Inv-moved :
      level r'.last_attempt_at ≤ suc s.clock
      → Local r' p'
      → ((j : ℕ) → (w == j) ≡ false → Local r' (s.pc j))
      → ((j t : ℕ) → (w == j) ≡ false → held p' ≡ some t → held (s.pc j) ≡ some t → ¬ Owns r' t)
      → ((i j t : ℕ) → held (s.pc i) ≡ some t → held (s.pc j) ≡ some t → Owns r' t → i ≡ j)
      → IsSound r'
      → All (IsOurs r') sent
      → Inv id (moved s w p' db sent) r'
  Inv-moved past mine theirs apart others sound ours = record {
    stored = found;
    past = past;
    local = local;
    alone = alone;
    sound = sound;
    ours = ours;
  }
    where
      local : (i : ℕ) → Local r' (update s.pc w p' i)
      local i = elim (Bool-cases (w == i)) [
        | inl same ↦ rw same mine
        | inr differ ↦ rw differ (theirs i differ)
      ]

      alone :
          (i j t : ℕ)
          → held (update s.pc w p' i) ≡ some t
          → held (update s.pc w p' j) ≡ some t
          → Owns r' t
          → i ≡ j
      alone i j t h k o = elim (Bool-cases (w == i)) [
        | inl a ↦ elim (Bool-cases (w == j)) [
          | inl b ↦ ground arith
          | inr b ↦ absurd (apart j t b (rw a at h) (rw b at k) o)
        ]
        | inr a ↦ elim (Bool-cases (w == j)) [
          | inl b ↦ absurd (apart i t a (rw b at k) (rw a at h) o)
          | inr b ↦ others i j t (rw a at h) (rw b at k) o
        ]
      ]
