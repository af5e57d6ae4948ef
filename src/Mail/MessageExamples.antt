-- ===== src/Mail/MessageExamples.antt =====
-- A reminder, the reply to it, and a mailbox.
use crm_nusrv.Store.Samples.{sample_case, sample_subscription, sample_customer, sample_db}
use crm_nusrv.Store.Rows.{RenewalCase, EmailAddress}
use crm_nusrv.Base.{
  In, find, Bool-cases, ◌==◌, ℕ, ◌≡◌, ◌+◌, ◌≤◌, refl, inl, inr, true, false, none, some, Option,
  String, [], ◌∷◌, All, arith, units, decimal, any_char, is_empty,
}
use crm_nusrv.Mail.ReplyMatch.{rows}
use crm_nusrv.Mail.ThreadUse.{CorrelationParams, CorrelationOutcome}
use crm_nusrv.Mail.Correlation.{correlate}
use crm_nusrv.Mail.Correlation.Answered.{IsConsistent, IsThere}
use crm_nusrv.Base.Results.{ok}
use crm_nusrv.Store.{Db}
use crm_nusrv.Store.Enums.{ClassificationStatus, ThreadStatus}
use crm_nusrv.Mail.MessageIds.{parse_message_id_tokens, parse_primary_message_id}
use crm_nusrv.Mail.MessageIds.Readable.{
  IsMessageId, IsPart, domain_of_address, parse-generate, parse_message_id_tokens-IsMessageId,
}
use crm_nusrv.Mail.ImapIdentity.{ImapIdentityTuple}
use crm_nusrv.Mail.ImapIdentity.Injective.{encoding_injective}
use crm_nusrv.Mail.InboundBody.{derive_inbound_body_text, derive_inbound_body_html}
use crm_nusrv.Mail.InboundBody.Bounded.{Fits, derive_inbound_body_bounds}
use crm_nusrv.Mail.Correlation.Outcome.{IsJustified}
use crm_nusrv.Mail.Correlation.Justified.{correlate-IsJustified}
use crm_nusrv.Mail.Outbound.Materialize.{generate_stable_message_id}
use Prim.Native.String

abbrev tuple : ImapIdentityTuple
tuple = record {
  mail_configuration_id = "m:1";
  canonical_folder = "INBOX";
  uid_validity = 77;
  uid = 5;
}

encoding_injective_example : tuple ≡ tuple
encoding_injective_example = encoding_injective tuple tuple refl

parse_message_id_tokens-IsMessageId_example :
    All IsMessageId (parse_message_id_tokens (some "<a@b.sa> junk <c@d.sa>"))
parse_message_id_tokens-IsMessageId_example =
    parse_message_id_tokens-IsMessageId (some "<a@b.sa> junk <c@d.sa>")

derive_inbound_body_bounds_example :
    (String.len (derive_inbound_body_text none (some "<p>Yes</p>")) ≤ 60000)
    × Fits (derive_inbound_body_html (some "<p>Yes</p>"))
derive_inbound_body_bounds_example = derive_inbound_body_bounds none (some "<p>Yes</p>")

uuid-IsPart : IsPart "3f2a"
uuid-IsPart = record { clean = refl; no_at = refl; some = refl }

domain-IsPart : IsPart (domain_of_address "billing@nusrv.sa")
domain-IsPart = record { clean = refl; no_at = refl; some = refl }

short : units "3f2a" + units (domain_of_address "billing@nusrv.sa") ≤ 497
short = omega arith

parse-generate_example :
    parse_primary_message_id (some (generate_stable_message_id "3f2a" "billing@nusrv.sa"))
    ≡ some (generate_stable_message_id "3f2a" "billing@nusrv.sa")
parse-generate_example = parse-generate "3f2a" "billing@nusrv.sa" uuid-IsPart domain-IsPart short

abbrev params : CorrelationParams
params = record {
  mail_configuration_id = 1;
  from_address = some "info@client.sa";
  subject = "Hello";
  occurred_at = 900;
  in_reply_to_header = none;
  references_header = none;
  renewal_case_id_header = some "1";
}

abbrev outcome : CorrelationOutcome
outcome = record {
  thread_id = 7;
  customer_id = some 1;
  renewal_case_id = some 1;
  classification_status = ClassificationStatus.pending;
}

abbrev after : Db
after = record sample_db {
  threads =
      (
        7,
        record {
          renewal_case_id = some 1;
          customer_id = some 1;
          mail_configuration_id = 1;
          subject = "Hello";
          status = ThreadStatus.open_thread;
          last_message_at = 900;
        },
      )
      ∷ [];
}

sample-IsConsistent : IsConsistent sample_db
sample-IsConsistent = record {
  threads = λ m i. absurd i;
  cases = λ k t c found named. absurd (cc);
  subscriptions = subscriptions;
  customers = customers;
}
  where
    subscriptions :
        (k : ℕ) (c : RenewalCase)
        → find k sample_db.renewal_cases ≡ some c
        → IsThere c.subscription_id sample_db.subscriptions
    subscriptions k c found = elim (Bool-cases (1 == k)) [
      | inl same ↦
          let h : some sample_case ≡ some c = rw same at found in
          let e : sample_case ≡ c = cc in rw (← e) (sample_subscription, refl)
      | inr differ ↦ let h : none ≡ some c = rw differ at found in absurd (cc)
    ]

    customers :
        (a : EmailAddress)
        → In a (rows sample_db.email_addresses)
        → IsThere a.customer_id sample_db.customers
    customers a (inl e) = rw e (sample_customer, refl)
    customers a (inr i) = absurd i

correlate-IsJustified_example :
    (after : Db) × (outcome : CorrelationOutcome) × (correlate decimal params 7 sample_db
      ≡ ok (after, outcome))
    × IsJustified decimal params 7 sample_db after outcome
correlate-IsJustified_example =
    correlate-IsJustified decimal params 7 sample_db refl sample-IsConsistent

-- The case that the header names gets a thread of its own.
named_case : correlate decimal params 7 sample_db ≡ ok (after, outcome)
unfolding correlate crm_nusrv.Mail.ReplyMatch.match_by_reply_headers
    crm_nusrv.Mail.Correlation.try_renewal_case_header decimal crm_nusrv.Base.digits
    crm_nusrv.Mail.Sender.resolve_sender_customer crm_nusrv.Renewal.Transition.includes
    crm_nusrv.Mail.Threads.resolve_or_create
named_case = refl
