-- ===== src/Mail/InboundExamples.antt =====
-- One worker at a mailbox whose cursor stands at 4 and that has a message under the UID 5.
use crm_nusrv.Mail.Inbound.Worker.{
  storing, Input, Run, Pc, start, fetching, fetched, reader_throws, FetchSinceResult, no_result,
}
use crm_nusrv.Mail.Inbound.Batch.{run, sync_one_config}
use crm_nusrv.Mail.Inbound.Batch.Caught.{Caught, run_of, sync_one_config-Caught}
use crm_nusrv.Mail.Inbound.Batch.Ends.{IsBatch, IsOver, sync_one_config_ends}
use crm_nusrv.Base.{
  List, All, length, zero, suc, ℕ, ◌≡◌, ◌<◌, ◌≤◌, ◌⊎◌, refl, sym, ◌∙◌, inl, inr, true, false, none,
  some, String, [], ◌∷◌, In, arith, find, decimal, decimal_injective, codes,
}
use mathlib.Core.Path.{subst}
use crm_nusrv.Store.Rows.{MailConfiguration}
use crm_nusrv.Store.Samples.{sample_db, sample_mailbox}
use crm_nusrv.Mail.Inbound.{FetchedMailboxMessage, Source, Draw}
use crm_nusrv.Mail.Inbound.System.{System, Stored, IsAt, acted, Reach, here, next, act, Answers}
use crm_nusrv.Mail.Inbound.Safety.Turn.{Advance}
use crm_nusrv.Mail.Inbound.Safety.Reached.{IsFresh, no_mail_lost, cursor_refines}

abbrev mail : FetchedMailboxMessage
mail = record {
  uid = 5;
  internal_date = some 800;
  subject = some "Renewal";
  from_address = some "someone@else.sa";
  to_addresses = "billing@nusrv.sa" ∷ [];
  message_id_header = some "<a@else.sa>";
  in_reply_to_header = none;
  references_header = none;
  renewal_case_id_header = none;
  text = some "Please renew.";
  html = none;
  parse_failed = false;
}

abbrev source : Source
source = record { box_id = 1; folder = "INBOX"; uid_validity = 77 }

abbrev mailbox : MailConfiguration
mailbox = record sample_mailbox { last_sync_uid_validity = some 77; last_sync_uid = some 4 }

abbrev first : System
first = record {
  db = record sample_db { mail_configurations = (1, mailbox) ∷ [] };
  pc = λ _. start;
  mailbox = mail ∷ [];
  uid_next = 6;
}

abbrev input : FetchSinceResult → ℕ → Input
input answer thread_id = record {
  clock = 1000;
  mailbox_state = none;
  fetch = answer;
  draw = record { clock = 1000; thread_id = thread_id; message_id = 9; enqueue_fails = false };
  error_text = [];
}

abbrev hash : String → String
hash s = s

abbrev acted_on : System → FetchSinceResult → ℕ → System
acted_on s answer thread_id = acted hash decimal source s 0 (input answer thread_id)

abbrev begun : System
begun = acted_on first reader_throws 7

abbrev answered : System
answered = acted_on begun (fetched (mail ∷ [])) 7

abbrev ingested : System
ingested = acted_on answered reader_throws 7

abbrev advanced : System
advanced = acted_on ingested reader_throws 8

first-IsFresh : IsFresh hash decimal source 4 first
unfolding crm_nusrv.Mail.ImapIdentity.canonicalize_imap_folder
first-IsFresh = record {
  ascending = (tt, tt);
  below = (omega arith, tt);
  at = record { config = mailbox; found = refl; folder = refl; uid_validity = refl; at = refl };
  known = omega arith;
  keyed = λ row i. absurd i;
  idle = λ w. refl;
}

abbrev the_run : Run
the_run = record { source = source; expected_cursor = 4; result = no_result }

runs : begun.pc 0 ≡ fetching the_run
unfolding crm_nusrv.Mail.Inbound.Worker.step crm_nusrv.Mail.Inbound.Sync.classify_cursor_state
    crm_nusrv.Mail.ImapIdentity.canonicalize_imap_folder
runs = refl

answers :
    (r : Run) → begun.pc 0 ≡ fetching r → Answers hash decimal source begun r (fetched (mail ∷ []))
answers r h =
    let same : fetching the_run ≡ fetching r = sym runs ∙ h in
    let e : the_run ≡ r = cc in
    subst (λ (x : Run). Answers hash decimal source begun x (fetched (mail ∷ []))) e
      (inr (inr (refl, refl)))

answered-Reach : Reach hash decimal source first answered
unfolding crm_nusrv.Mail.Inbound.Worker.step
answered-Reach =
    next (next here (act 0 (input reader_throws 7) (λ r h. inl refl) refl))
      (act 0 (input (fetched (mail ∷ [])) 7) answers refl)

ingested-Reach : Reach hash decimal source first ingested
unfolding crm_nusrv.Mail.Inbound.Worker.step crm_nusrv.Mail.Inbound.Sync.classify_cursor_state
ingested-Reach = next answered-Reach (act 0 (input reader_throws 7) (λ r h. inl refl) refl)

unused : find 8 ingested.db.threads ≡ none
unfolding crm_nusrv.Mail.Inbound.Worker.step crm_nusrv.Mail.Inbound.Sync.classify_cursor_state
    crm_nusrv.Mail.Inbound.ingest_one_message crm_nusrv.Mail.Correlation.correlate
    crm_nusrv.Mail.ReplyMatch.match_by_reply_headers
    crm_nusrv.Mail.Correlation.try_renewal_case_header
    crm_nusrv.Mail.Correlation.attribute_and_create_general_thread
    crm_nusrv.Mail.Sender.resolve_sender_customer
unused = refl

advanced-Reach : Reach hash decimal source first advanced
advanced-Reach = next ingested-Reach (act 0 (input reader_throws 8) (λ r h. inl refl) unused)

there : In mail advanced.mailbox
there = inl refl

no_mail_lost_example :
    (uid : ℕ) × IsAt source uid advanced.db × (4 ≤ uid) × ((uid < 5) ⊎ Stored source 5 advanced.db)
no_mail_lost_example =
    no_mail_lost hash decimal source 4 (λ a b e. e) decimal_injective first advanced first-IsFresh
      advanced-Reach mail there (omega arith)

ingested-IsAt : IsAt source 4 ingested.db
unfolding crm_nusrv.Mail.Inbound.Worker.step crm_nusrv.Mail.Inbound.Sync.classify_cursor_state
    crm_nusrv.Mail.Inbound.ingest_one_message crm_nusrv.Mail.Correlation.correlate
    crm_nusrv.Mail.ReplyMatch.match_by_reply_headers
    crm_nusrv.Mail.Correlation.try_renewal_case_header
    crm_nusrv.Mail.Correlation.attribute_and_create_general_thread
    crm_nusrv.Mail.Sender.resolve_sender_customer
    crm_nusrv.Mail.ImapIdentity.canonicalize_imap_folder
ingested-IsAt = record {
  config = mailbox;
  found = refl;
  folder = refl;
  uid_validity = refl;
  at = refl;
}

advanced-IsAt : IsAt source 5 advanced.db
unfolding crm_nusrv.Mail.Inbound.Worker.step crm_nusrv.Mail.Inbound.Sync.classify_cursor_state
    crm_nusrv.Mail.Inbound.ingest_one_message crm_nusrv.Mail.Correlation.correlate
    crm_nusrv.Mail.ReplyMatch.match_by_reply_headers
    crm_nusrv.Mail.Correlation.try_renewal_case_header
    crm_nusrv.Mail.Correlation.attribute_and_create_general_thread
    crm_nusrv.Mail.Sender.resolve_sender_customer crm_nusrv.Mail.Inbound.Sync.advance_cursor
    crm_nusrv.Base.update_many crm_nusrv.Mail.ImapIdentity.canonicalize_imap_folder
advanced-IsAt = record {
  config = record mailbox { last_sync_uid = some 5; last_synced_at = some 1000 };
  found = refl;
  folder = refl;
  uid_validity = refl;
  at = refl;
}

-- The cursor moves to the message once that is stored.
cursor_refines_example : Advance source advanced.mailbox advanced.db 4 5
cursor_refines_example =
    cursor_refines hash decimal source 4 (λ a b e. e) decimal_injective first ingested advanced
      first-IsFresh ingested-Reach (act 0 (input reader_throws 8) (λ r h. inl refl) unused) 4 5
      ingested-IsAt advanced-IsAt

abbrev many : ℕ → List Input
many zero = []
many (suc n) = input (fetched (mail ∷ [])) 7 ∷ many n

many-IsBatch : (n : ℕ) → All (λ i. IsBatch i.fetch) (many n)
many-IsBatch zero = tt
many-IsBatch (suc n) = (omega arith, many-IsBatch n)

length-many : (n : ℕ) → length (many n) ≡ n
length-many zero = refl
length-many (suc n) = ground (arith, length-many n)

sync_one_config_ends_example : IsOver (sync_one_config hash decimal 1 mailbox (many 202) first.db).1
sync_one_config_ends_example =
    sync_one_config_ends hash decimal 1 mailbox (many 202) first.db (many-IsBatch 202)
      (let e = length-many 202 in omega (arith, e))

sync_one_config-Caught_example :
    (sync_one_config hash decimal 1 mailbox (many 4) first.db
      ≡ run hash decimal 1
          (many 3)
          (storing (run_of hash decimal 1 mailbox 77 4) (mail ∷ []) 1)
          first.db)
    × Caught hash decimal (run_of hash decimal 1 mailbox 77 4) (mail ∷ []) 1 (many 3) first.db
sync_one_config-Caught_example =
    sync_one_config-Caught hash decimal 1 77 4 first.db mailbox (input (fetched (mail ∷ [])) 7)
      (many 3) (mail ∷ []) refl refl refl refl (omega arith)
