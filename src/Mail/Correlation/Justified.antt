-- ===== src/Mail/Correlation/Justified.antt =====
-- The correlation of a message puts it into a thread only for a reason, and writes nothing else.
use crm_nusrv.Mail.Correlation.Answered.{IsConsistent, correlate-Answers}
use crm_nusrv.Mail.ReplyMatch.{
  token_list, HeaderMatch, thread, ambiguous, none_matches, match_by_reply_headers,
}
use crm_nusrv.Mail.ThreadUse.{CorrelationParams, CorrelationOutcome}
use crm_nusrv.Mail.Correlation.{
  CaseHint, no_hint, reject, attach, try_renewal_case_header, by_hint, by_match, correlate,
}
use crm_nusrv.Base.{
  In-append_left, In-append_right, ℕ, ◌≡◌, refl, ap, inl, inr, true, false, none, String, List,
  find, In,
}
use mathlib.Core.Path.{subst}
use crm_nusrv.Base.Results.{ok, answer-chain}
use crm_nusrv.Store.{Db}
use crm_nusrv.Mail.MessageIds.{parse_message_id_tokens, parse_primary_message_id}
use crm_nusrv.Mail.Correlation.Effect.{created-IsPlaced}
use crm_nusrv.Mail.Correlation.Evidence.{
  Quotes, match_threads-Quotes, one_thread-In, Reason, quotes, separate,
}
use crm_nusrv.Mail.Correlation.Outcome.{
  IsJustified, Justified, use-Justified, attributed-Justified, answered, thread_id_of,
}
use crm_nusrv.Mail.Correlation.Named.{HintJustified, hint-Justified}

module _ (id_text : ℕ → String) (params : CorrelationParams) (fresh : ℕ) (db : Db)
    (unused : find fresh db.threads ≡ none) where
  widened :
      {k : ℕ} {tokens wider : List String}
      → ((x : String) → In x tokens → In x wider)
      → Quotes params.mail_configuration_id tokens db k
      → Quotes params.mail_configuration_id wider db k
  widened more q = record {
    message = q.message;
    stored = q.stored;
    mailbox = q.mailbox;
    in_thread = q.in_thread;
    message_id = q.message_id;
    named = q.named;
    quoted = more q.message_id q.quoted;
  }

  match-Reason :
      (k : ℕ) (outcome : CorrelationOutcome)
      → match_by_reply_headers params.mail_configuration_id
          (parse_primary_message_id params.in_reply_to_header)
          (parse_message_id_tokens params.references_header)
          db
        ≡ thread k
      → outcome.thread_id ≡ k
      → Reason id_text params fresh db outcome
  unfolding match_by_reply_headers
  match-Reason k outcome h e =
      let mailbox = params.mail_configuration_id in
      let first = token_list (parse_primary_message_id params.in_reply_to_header) in
      let more = parse_message_id_tokens params.references_header in
      quotes (elim (one_thread-In _ _ k h) [
        | inl there ↦
            widened (λ x m. In-append_left x first more m)
              (rw e (match_threads-Quotes mailbox first db k there))
        | inr there ↦
            widened (λ x m. In-append_right x first more m)
              (rw e (match_threads-Quotes mailbox more db k there))
      ])

  by_hint-Justified :
      (hint : CaseHint) {after : Db} {outcome : CorrelationOutcome}
      → HintJustified id_text params fresh db unused hint
      → by_hint id_text hint params fresh db ≡ ok (after, outcome)
      → IsJustified id_text params fresh db after outcome
  by_hint-Justified no_hint j h = attributed-Justified id_text params fresh db unused false h
  by_hint-Justified reject j h = attributed-Justified id_text params fresh db unused true h
  by_hint-Justified (attach after outcome) j h =
      subst (λ (r : Db × CorrelationOutcome). Justified id_text params fresh db unused r)
        (answered id_text params fresh db unused h) j

  by_match-Justified :
      (m : HeaderMatch) {after : Db} {outcome : CorrelationOutcome}
      → match_by_reply_headers params.mail_configuration_id
          (parse_primary_message_id params.in_reply_to_header)
          (parse_message_id_tokens params.references_header)
          db
        ≡ m
      → by_match id_text m params fresh db ≡ ok (after, outcome)
      → IsJustified id_text params fresh db after outcome
  by_match-Justified (thread k) e h =
      use-Justified id_text params fresh db unused k h
        (λ u. match-Reason k _ e (ap thread_id_of u.told))
  by_match-Justified ambiguous e h =
      subst (λ (r : Db × CorrelationOutcome). Justified id_text params fresh db unused r)
        (answered id_text params fresh db unused h)
        (record {
          placed = created-IsPlaced fresh db _ _ unused;
          reason = separate refl refl;
          unsuspicious = λ ready. absurd (cc);
        })
  by_match-Justified none_matches e h =
      let (hint, found, h1) = answer-chain _ (try_renewal_case_header id_text params fresh db) h in
      by_hint-Justified hint (hint-Justified id_text params fresh db unused found) h1

  pub answer-IsJustified :
      {after : Db} {outcome : CorrelationOutcome}
      → correlate id_text params fresh db ≡ ok (after, outcome)
      → IsJustified id_text params fresh db after outcome
  unfolding correlate
  answer-IsJustified h = by_match-Justified _ refl h

  -- Where the rows that others refer to are there, and the id for a new thread is not taken, an
  -- inbound message is put into a thread, and only for a reason: its headers quote, letter by
  -- letter, the Message-ID of a message that stands in that thread and in the same mailbox; or they
  -- name a renewal case whose customer is the sender, and it is the case's thread in the same mailbox
  -- or a new one; or it is a new thread of no case. Nothing else is written, and an older thread
  -- keeps its customer, case, mailbox and subject, and its last message's time does not go back. If
  -- the message is left to be handled without a human, its sender is not known to be another
  -- customer than the message is put down to, and its case is not over.
  pub correlate-IsJustified :
      IsConsistent db
      → (after : Db) × (outcome : CorrelationOutcome) × (correlate id_text params fresh db
          ≡ ok (after, outcome))
        × IsJustified id_text params fresh db after outcome
  correlate-IsJustified consistent =
      let ((after, outcome), answer) = correlate-Answers db consistent id_text params fresh in
      (after, outcome, answer, answer-IsJustified answer)
