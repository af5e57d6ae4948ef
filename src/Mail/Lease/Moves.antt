-- ===== src/Mail/Lease/Moves.antt =====
-- The invariant is kept by every kind of access.
use crm_nusrv.Base.{
  ℕ, ◌<◌, ◌≡◌, refl, sym, ap, ◌∙◌, true, false, none, some, List, All, arith, ◌⊎◌, inl, inr, find,
  ◌==◌,
}
use crm_nusrv.Store.{Db}
use crm_nusrv.Store.Enums.{is_processing}
use crm_nusrv.Store.Rows.{Outbox}
use crm_nusrv.Mail.Outbound.{claimable, claimed_by}
use crm_nusrv.Mail.Outbound.Worker.{Pc, start, reading, loading, Transmission}
use crm_nusrv.Mail.Lease.{System, held, is_reading, IsPrompt}
use crm_nusrv.Mail.Lease.Knowledge.{
  Owns, Knows, IsSound, IsPinned, Turn, claims, reads, leaves, writes,
}
use crm_nusrv.Mail.Lease.Locals.{
  Local, Local-IsPinned, claimed-new, claimed-IsPinned, Local-claimed, IsOurs, All-IsOurs,
}
use crm_nusrv.Mail.Lease.Invariant.{Inv, moved, Inv-moved}

module _ (id : ℕ) (s : System) (r : Outbox) (inv : Inv id s r) (w : ℕ) (db : Db)
    (sent : List Transmission) (ours : All (IsOurs r) sent) where
  claims-Inv :
      s.pc w ≡ start
      → IsPrompt s w
      → claimable s.clock r ≡ true
      → find id db.outbox ≡ some (claimed_by s.clock r)
      → Inv id (moved s w (reading s.clock) db sent) (claimed_by s.clock r)
  claims-Inv e prompt free found =
      Inv-moved id s r (claimed_by s.clock r) w (reading s.clock) db sent found (omega arith) mine
        (λ j _. Local-claimed s.clock r inv.past free (s.pc j) (quiet j) (inv.local j))
        (λ j t _ _ h. new j t h) (λ i j t h _ o. absurd (new i t h o))
        (record { together = inv.sound.together; unsent = inv.sound.unsent })
        (All-IsOurs (λ _. claimed-IsPinned s.clock r inv.past free) sent ours)
    where
      quiet : (j now : ℕ) → ¬ (s.pc j ≡ reading now)
      quiet j now q =
          let read : is_reading (reading now) ≡ false = rw q at (prompt (rw e refl) j) in cc

      new : (j t : ℕ) → held (s.pc j) ≡ some t → ¬ Owns (claimed_by s.clock r) t
      new j t = claimed-new s.clock r inv.past free (s.pc j) t (inv.local j)

      mine : Local (claimed_by s.clock r) (reading s.clock)
      mine = record {
        behind = λ t h. ground arith;
        busy = λ t h o. refl;
        recent = λ now q. cc;
        informed = tt;
      }

  -- The lease stays with whom it was.
  same-Inv :
      (r' : Outbox) (p' : Pc)
      → find id db.outbox ≡ some r'
      → r'.last_attempt_at ≡ r.last_attempt_at
      → Local r' p'
      → ((t : ℕ) → held p' ≡ some t → held (s.pc w) ≡ some t)
      → ((j : ℕ) → (w == j) ≡ false → Local r' (s.pc j))
      → (0 < r.attempts → IsPinned r r')
      → IsSound r'
      → Inv id (moved s w p' db sent) r'
  same-Inv r' p' found same mine from theirs pinned sound =
      Inv-moved id s r r' w p' db sent found (rw same inv.past) mine theirs
        (λ j t differ h k o. ground (arith, inv.alone w j t (from t h) k (sym same ∙ o)))
        (λ i j t h k o. inv.alone i j t h k (sym same ∙ o)) sound (All-IsOurs pinned sent ours)

  reads-Inv :
      (now t : ℕ)
      → s.pc w ≡ reading now
      → Owns r t
      → find id db.outbox ≡ some r
      → Inv id (moved s w (loading t now) db sent) r
  reads-Inv now t e owns found =
      same-Inv r (loading t now) found refl mine (λ u h. held_w ∙ h) (λ j _. inv.local j)
        (λ _. record { recipient = refl; header = refl; message = refl; counted = omega arith })
        inv.sound
    where
      held_w : held (s.pc w) ≡ some t
      held_w = rw e (sym ((inv.local w).recent now e) ∙ owns)

      mine : Local r (loading t now)
      mine = record {
        behind = λ u h. ground arith;
        busy = λ u h o. (inv.local w).busy t held_w owns;
        recent = λ m h. cc;
        informed = tt;
      }

  leaves-Inv :
      (p' : Pc)
      → find id db.outbox ≡ some r
      → (held p' ≡ none) ⊎ (held p' ≡ held (s.pc w))
      → is_reading p' ≡ false
      → Knows r p'
      → Inv id (moved s w p' db sent) r
  leaves-Inv p' found goes no_read knows =
      same-Inv r p' found refl mine from (λ j _. inv.local j)
        (λ _. record { recipient = refl; header = refl; message = refl; counted = omega arith })
        inv.sound
    where
      from : (u : ℕ) → held p' ≡ some u → held (s.pc w) ≡ some u
      from u h = elim goes [ inl gone ↦ absurd (cc) | inr kept ↦ cc ]

      not_reading : (m : ℕ) → ¬ (p' ≡ reading m)
      not_reading m q = let read : is_reading (reading m) ≡ false = rw q at no_read in cc

      mine : Local r p'
      mine = record {
        behind = λ u h. (inv.local w).behind u (from u h);
        busy = λ u h. (inv.local w).busy u (from u h);
        recent = λ m h. absurd (not_reading m h);
        informed = knows;
      }

  writes-Inv :
      (r' : Outbox) (p' : Pc) (t : ℕ)
      → find id db.outbox ≡ some r'
      → held (s.pc w) ≡ some t
      → Owns r t
      → r'.last_attempt_at ≡ r.last_attempt_at
      → (held p' ≡ none) ⊎ ((held p' ≡ some t) × (is_processing r'.status ≡ true))
      → is_reading p' ≡ false
      → (0 < r.attempts → IsPinned r r')
      → IsSound r'
      → Knows r' p'
      → Inv id (moved s w p' db sent) r'
  writes-Inv r' p' t found has owns same goes no_read pinned sound knows =
      same-Inv r' p' found same mine from
        (λ j differ.
          Local-IsPinned pinned (s.pc j) same (λ u h o. out j u differ h (sym same ∙ o))
            (inv.local j))
        pinned sound
    where
      out : (j u : ℕ) → (w == j) ≡ false → held (s.pc j) ≡ some u → ¬ Owns r u
      out j u differ h o = ground (arith, inv.alone w j u (has ∙ (sym owns ∙ o)) h o)

      from : (u : ℕ) → held p' ≡ some u → held (s.pc w) ≡ some u
      from u h = elim goes [ inl gone ↦ absurd cc | inr (kept, _) ↦ cc ]

      not_reading : (m : ℕ) → ¬ (p' ≡ reading m)
      not_reading m q = let read : is_reading (reading m) ≡ false = rw q at no_read in cc

      mine : Local r' p'
      mine = record {
        behind = λ u h. rw same ((inv.local w).behind u (from u h));
        busy = λ u h o. elim goes [ inl gone ↦ absurd cc | inr (_, busy) ↦ busy ];
        recent = λ m h. absurd (not_reading m h);
        informed = knows;
      }

  pub Turn-Inv :
      (r' : Outbox) (p' : Pc)
      → IsPrompt s w
      → find id db.outbox ≡ some r'
      → Turn s.clock r r' (s.pc w) p'
      → Inv id (moved s w p' db sent) r'
  Turn-Inv r' p' prompt found (claims e free er ep) =
      rw (er, ep) (claims-Inv e prompt free (found ∙ ap some er))
  Turn-Inv r' p' prompt found (reads now t e er owns ep) =
      rw (er, ep) (reads-Inv now t e owns (found ∙ ap some er))
  Turn-Inv r' p' prompt found (leaves er goes no_read knows) =
      rw er (leaves-Inv p' (found ∙ ap some er) goes no_read knows)
  Turn-Inv r' p' prompt found (writes t has owns _ same goes no_read pinned sound knows) =
      writes-Inv r' p' t found has owns same goes no_read pinned sound knows
