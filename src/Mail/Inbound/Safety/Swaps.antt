-- ===== src/Mail/Inbound/Safety/Swaps.antt =====
-- The two writes to the cursor of a mailbox.
use crm_nusrv.Mail.Inbound.Worker.{report_baseline, or_lost, after_advance, Input, Run}
use crm_nusrv.Mail.Inbound.Safety.Fetching.{All-In}
use crm_nusrv.Base.{
  ltb, ℕ, ◌<◌, ◌≡◌, refl, ap, ◌∙◌, inl, inr, Bool, true, false, some, String, List, ◌∷◌, find,
  update_many, find-update_many, matches, arith, Bool-cases, if◌then◌else◌,
}
use mathlib.Core.Path.{subst}
use crm_nusrv.Store.{Db}
use crm_nusrv.Store.Rows.{MailConfiguration}
use crm_nusrv.Mail.Inbound.{FetchedMailboxMessage, Source, Ingested}
use crm_nusrv.Mail.Inbound.Sync.{advance_cursor, establish_baseline, has_cursor, is_unset, at_uid}
use crm_nusrv.Mail.Inbound.System.{System, Stored, IsAt}
use crm_nusrv.Mail.Inbound.Safety.{Inv, IsRun, Handled, IsNext, Follow}
use crm_nusrv.Mail.Inbound.Safety.Turn.{Advance, stays, moves, Turn, still}

module _ (sha256_hex : String → String) (id_text : ℕ → String) (source : Source) (baseline : ℕ)
    (s : System) (inv : Inv source baseline sha256_hex id_text s) where
  -- The row of the mailbox after a write to it.
  find-config :
      (p : MailConfiguration → Bool) (f : MailConfiguration → MailConfiguration)
      → find source.box_id (update_many source.box_id p f s.db.mail_configurations)
        ≡ some (if p inv.at.config then f inv.at.config else inv.at.config)
  find-config p f = ground (
    arith,
    find-update_many source.box_id source.box_id p f s.db.mail_configurations,
    inv.at.found,
  )

  matches-config :
      (p : MailConfiguration → Bool)
      → matches source.box_id p s.db.mail_configurations ≡ p inv.at.config
  matches-config p = ground (arith, inv.at.found)

  set_already : is_unset inv.at.config ≡ false
  set_already = ground (arith, inv.at.uid_validity)

  IsAt-same :
      (after : Db)
      → find source.box_id after.mail_configurations ≡ some inv.at.config
      → IsAt source inv.cursor after
  IsAt-same after found = record {
    config = inv.at.config;
    found = found;
    folder = inv.at.folder;
    uid_validity = inv.at.uid_validity;
    at = inv.at.at;
  }

  IsAt-next :
      (after : Db) (uid now : ℕ)
      → find source.box_id after.mail_configurations ≡ some (at_uid uid now inv.at.config)
      → IsAt source uid after
  IsAt-next after uid now found = record {
    config = at_uid uid now inv.at.config;
    found = found;
    folder = inv.at.folder;
    uid_validity = inv.at.uid_validity;
    at = refl;
  }

  -- The messages up to the next one are handled once that is stored.
  pub next-Handled :
      (after : Db) (u : ℕ) (m : FetchedMailboxMessage)
      → ((uid : ℕ) → Stored source uid s.db → Stored source uid after)
      → Handled source baseline s.mailbox u s.db
      → IsNext s.mailbox u m
      → Stored source m.uid after
      → Handled source baseline s.mailbox m.uid after
  next-Handled after u m kept handled n h k i past upto = elim (Bool-cases (ltb u k.uid)) [
    | inl later ↦
        let e : m.uid ≡ k.uid = omega (arith, upto, n.nearest k i (ground arith)) in
        subst (λ (x : ℕ). Stored source x after) e h
    | inr before ↦ kept k.uid (handled k i past (ground arith))
  ]

  hit_iff :
      (v e : ℕ) → v ≡ source.uid_validity → has_cursor v e inv.at.config ≡ true → e ≡ inv.cursor
  hit_iff v e same h = ground (arith, inv.at.uid_validity, inv.at.at)

  pub turn-advancing :
      (i : Input) (r : Run) (m : FetchedMailboxMessage) (l : List FetchedMailboxMessage) (n : ℕ)
      (o : Ingested)
      → IsRun source baseline s r
      → Follow s.mailbox r.expected_cursor (m ∷ l)
      → Stored source m.uid s.db
      → let (after, advanced) =
          advance_cursor source.box_id r.source.uid_validity r.expected_cursor m.uid i.clock s.db in
        Turn sha256_hex id_text source baseline s inv.cursor after
          (after_advance r m l n o advanced)
  unfolding advance_cursor
  turn-advancing i r m l n o run (next, f) h =
      elim (Bool-cases (has_cursor r.source.uid_validity r.expected_cursor inv.at.config)) [
        | inl hit ↦
            let same_cursor =
              hit_iff _ r.expected_cursor (ap (λ (x : Source). x.uid_validity) run.same_source)
                hit in
            rw (matches-config (has_cursor r.source.uid_validity r.expected_cursor)) (
              rw hit (
                still sha256_hex id_text source baseline s inv _ _ m.uid refl
                  (IsAt-next _ m.uid i.clock (find-config _ _ ∙ ap some (rw hit refl)))
                  (subst
                    (λ (x : ℕ).
                      Advance source s.mailbox
                        (advance_cursor source.box_id r.source.uid_validity r.expected_cursor m.uid
                          i.clock s.db).0
                        x m.uid)
                    same_cursor (moves m next h))
                  (λ uid x. x)
                  (
                    record {
                      same_source = run.same_source;
                      past = omega (arith, run.past, next.after);
                      known = All-In (λ x. x.uid < s.uid_next) s.mailbox m inv.below next.there;
                      handled =
                          next-Handled s.db r.expected_cursor m (λ uid x. x) run.handled next h;
                    },
                    f,
                  )))
        | inr miss ↦ rw (matches-config (has_cursor r.source.uid_validity r.expected_cursor)) (
            rw miss (
              still sha256_hex id_text source baseline s inv _ _ inv.cursor refl
                (IsAt-same _ (find-config _ _ ∙ ap some (rw miss refl))) stays (λ uid x. x) tt))
      ]

  pub turn-establishing :
      (i : Input) (uid_validity baseline_uid : ℕ)
      → let (after, won) =
          establish_baseline source.box_id uid_validity baseline_uid i.clock s.db in
        Turn sha256_hex id_text source baseline s inv.cursor
          (report_baseline source.box_id won after)
          (or_lost won)
  unfolding establish_baseline
  turn-establishing i uid_validity baseline_uid = rw (matches-config is_unset) (
      rw set_already (
        still sha256_hex id_text source baseline s inv _ _ inv.cursor refl
          (IsAt-same _ (find-config _ _ ∙ ap some (rw set_already refl))) stays (λ uid x. x) tt))
