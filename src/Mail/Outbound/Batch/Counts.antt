-- ===== src/Mail/Outbound/Batch/Counts.antt =====
-- Every candidate of a batch is counted.
use crm_nusrv.Base.{
  ℕ, suc, zero, ◌+◌, ◌≡◌, ◌≤◌, ap, sym, ◌∙◌, true, Option, some, String, List, [], ◌∷◌, Table, All,
  filter, take, length, length-take-le, arith, Option-cases, Bool-cases, inl, inr,
}
use crm_nusrv.Store.{Db}
use crm_nusrv.Store.Rows.{Outbox}
use crm_nusrv.Mail.Outbound.Worker.{
  Outcome, sent, deferred, cancelled, failed, not_claimed, conflict, ownership_lost_after_send,
  start, Input, goes, run,
}
use crm_nusrv.Mail.Outbound.Batch.{
  sooner, Summary, count, total, is_due, insert_due, by_schedule, candidates_of, settled,
  process_all, none_yet, process_batch,
}

total-count : (o : Outcome) (s : Summary) → total (count o s) ≡ suc (total s)
total-count sent s = omega arith
total-count deferred s = omega arith
total-count cancelled s = omega arith
total-count failed s = omega arith
total-count not_claimed s = omega arith
total-count conflict s = omega arith
total-count ownership_lost_after_send s = omega arith

candidates-count : (o : Outcome) (s : Summary) → (count o s).candidates ≡ s.candidates
candidates-count o s = ground arith

All-insert_due :
    (P : ℕ × Outbox → Type 0) (r : ℕ × Outbox) (l : Table Outbox)
    → P r
    → All P l
    → All P (insert_due r l)
unfolding insert_due
All-insert_due P r [] h a = (h, tt)
All-insert_due P r (x ∷ l) h (b, a) = elim (Bool-cases (sooner r x)) [
  | inl le ↦ rw le (h, (b, a))
  | inr gt ↦ rw gt (b, All-insert_due P r l h a)
]

All-by_schedule : (P : ℕ × Outbox → Type 0) (l : Table Outbox) → All P l → All P (by_schedule l)
unfolding by_schedule
All-by_schedule P [] a = tt
All-by_schedule P (x ∷ l) (h, a) = All-insert_due P x (by_schedule l) h (All-by_schedule P l a)

All-take : (P : ℕ × Outbox → Type 0) (n : ℕ) (l : Table Outbox) → All P l → All P (take n l)
All-take P zero l a = tt
All-take P (suc n) [] a = tt
All-take P (suc n) (x ∷ l) (h, a) = (h, All-take P n l a)

All-due :
    (now : ℕ) (l : Table Outbox)
    → All (λ (x : ℕ × Outbox). is_due now x ≡ true) (filter (is_due now) l)
All-due now [] = tt
All-due now (x ∷ l) = elim (Bool-cases (is_due now x)) [
  | inl due ↦ rw due (due, All-due now l)
  | inr early ↦ rw early (All-due now l)
]

module _ (node_env : Option String) (inputs : ℕ → List Input) where
  process_all-total :
      (l : Table Outbox) (db : Db) (s : Summary) {db' : Db} {s' : Summary}
      → process_all node_env inputs l db s ≡ some (db', s')
      → (total s' ≡ total s + length l) × (s'.candidates ≡ s.candidates)
  unfolding process_all
  process_all-total [] db s {s' = s'} e =
      let same : s ≡ s' = ground arith in
      (rw (← same) (omega arith), ap (λ (x : Summary). x.candidates) (sym same))
  process_all-total ((k, row) ∷ l) db s {db'} {s'} e =
      let after = run node_env k (inputs k) (goes db start) in
      elim (Option-cases (settled after.pc)) [
        | inl threw ↦ ground arith
        | inr (o, q) ↦
            let (t, c) =
              process_all-total l after.db (count o s) {db' = db'} {s' = s'} (ground arith) in
            (omega (arith, t, total-count o s), c ∙ candidates-count o s)
      ]

  -- A batch in which no row's work throws takes at most fifty rows, each of them due and free to be
  -- claimed when it is read, and counts each of them once, under one outcome.
  pub process_batch_counts :
      (now : ℕ) (db : Db) {db' : Db} {s : Summary}
      → process_batch node_env inputs now db ≡ some (db', s)
      → let l = candidates_of now db in
        (length l ≤ 50)
        × All (λ (x : ℕ × Outbox). is_due now x ≡ true) l
        × (total s ≡ length l)
        × (s.candidates ≡ length l)
  unfolding process_batch candidates_of
  process_batch_counts now db {db'} {s} e =
      let l = candidates_of now db in
      let (t, c) =
        process_all-total l db (none_yet node_env inputs (length l)) {db' = db'} {s' = s} e in
      (
        length-take-le 50 (by_schedule (filter (is_due now) db.outbox)),
        All-take (λ (x : ℕ × Outbox). is_due now x ≡ true) 50
            (by_schedule (filter (is_due now) db.outbox))
            (All-by_schedule (λ (x : ℕ × Outbox). is_due now x ≡ true)
              (filter (is_due now) db.outbox) (All-due now db.outbox)),
        omega (arith, t),
        c,
      )
