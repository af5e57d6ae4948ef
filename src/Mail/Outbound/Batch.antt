-- ===== src/Mail/Outbound/Batch.antt =====
-- `processBatch` of mail-outbound.service.ts: the rows that are due, oldest first, one after another.
pub mod Counts
use crm_nusrv.Base.{
  ℕ, suc, zero, ◌+◌, ◌≡◌, ◌≤◌, refl, ap, sym, ◌∙◌, Bool, true, false, ◌&&◌, ◌||◌, Option, none,
  some, String, List, [], ◌∷◌, Table, All, filter, take, length, length-take-le, map, leb, ltb,
  ◌==◌, arith, if◌then◌else◌, Option-cases, Bool-cases, inl, inr,
}
use crm_nusrv.Store.{Db}
use crm_nusrv.Store.Rows.{Outbox}
use crm_nusrv.Mail.Outbound.{claimable}
use crm_nusrv.Mail.Outbound.Worker.{
  Outcome, sent, deferred, cancelled, failed, not_claimed, conflict, ownership_lost_after_send, Pc,
  start, done, Input, After, goes, run,
}

-- `MailBatchSummary`
pub record Summary : Type 0 where
  pub candidates : ℕ
  pub sent_count : ℕ
  pub deferred_count : ℕ
  pub cancelled_count : ℕ
  pub failed_count : ℕ
  pub not_claimed_count : ℕ
  pub conflicts : ℕ
  pub ownership_lost : ℕ

abbrev pub count : Outcome → Summary → Summary
count sent s = record s { sent_count = suc s.sent_count }
count deferred s = record s { deferred_count = suc s.deferred_count }
count cancelled s = record s { cancelled_count = suc s.cancelled_count }
count failed s = record s { failed_count = suc s.failed_count }
count not_claimed s = record s { not_claimed_count = suc s.not_claimed_count }
count conflict s = record s { conflicts = suc s.conflicts }
count ownership_lost_after_send s = record s { ownership_lost = suc s.ownership_lost }

-- All outcomes together
abbrev pub total : Summary → ℕ
total s =
    s.sent_count + s.deferred_count + s.cancelled_count + s.failed_count + s.not_claimed_count
    + s.conflicts + s.ownership_lost

abbrev pub is_due : ℕ → ℕ × Outbox → Bool
is_due now (_, row) = leb row.scheduled_at now && claimable now row

-- `orderBy: [{ scheduledAt: 'asc' }, { id: 'asc' }]`
abbrev pub sooner : ℕ × Outbox → ℕ × Outbox → Bool
sooner (j, a) (k, b) =
    ltb a.scheduled_at b.scheduled_at || (a.scheduled_at == b.scheduled_at && leb j k)

unfoldable pub insert_due : ℕ × Outbox → Table Outbox → Table Outbox
insert_due r [] = r ∷ []
insert_due r (x ∷ l) = let rest = insert_due r l in if sooner r x then r ∷ x ∷ l else x ∷ rest

unfoldable pub by_schedule : Table Outbox → Table Outbox
by_schedule [] = []
by_schedule (r ∷ l) = insert_due r (by_schedule l)

-- `BATCH_SIZE`
abbrev pub batch_size : ℕ
batch_size = 50

unfoldable pub candidates_of : ℕ → Db → Table Outbox
candidates_of now db = take batch_size (by_schedule (filter (is_due now) db.outbox))

abbrev pub settled : Pc → Option Outcome
settled (done outcome) = some outcome
settled _ = none

module _ (node_env : Option String) (inputs : ℕ → List Input) where
  -- The loop over the candidates; `none` is an exception that leaves `processBatch`.
  unfoldable pub process_all : Table Outbox → Db → Summary → Option (Db × Summary)
  process_all [] db s = some (db, s)
  process_all ((k, _) ∷ l) db s =
      let after = run node_env k (inputs k) (goes db start) in
      elim (settled after.pc) [ none ↦ none | some o ↦ process_all l after.db (count o s) ]

  abbrev pub none_yet : ℕ → Summary
  none_yet n = record {
    candidates = n;
    sent_count = 0;
    deferred_count = 0;
    cancelled_count = 0;
    failed_count = 0;
    not_claimed_count = 0;
    conflicts = 0;
    ownership_lost = 0;
  }

  unfoldable pub process_batch : ℕ → Db → Option (Db × Summary)
  process_batch now db =
      process_all (candidates_of now db) db (none_yet (length (candidates_of now db)))
