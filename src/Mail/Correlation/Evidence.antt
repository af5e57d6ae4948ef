-- ===== src/Mail/Correlation/Evidence.antt =====
-- Why a message is put where it is put.
use crm_nusrv.Mail.ReplyMatch.{
  token_list, thread, rows, thread_ids, is_exact, is_candidate, match_threads_by_external_ids,
  one_thread,
}
use crm_nusrv.Mail.ThreadUse.{
  sender_of, is_other, is_terminal_case, for_review, conflicts, is_closed_case, CorrelationParams,
  CorrelationOutcome,
}
use crm_nusrv.Mail.Correlation.{hinted, is_customer}
use crm_nusrv.Base.{
  ℕ, ◌≡◌, ◌⊎◌, refl, sym, ◌∙◌, ap, inl, inr, Bool, true, false, not, ◌||◌, Option, none, some,
  String, List, [], ◌∷◌, ◌++◌, find, arith, Option-cases, ◌==◌, In, In-filter, any-In, str_eq,
  str_eq_iff, filter,
}
use crm_nusrv.Base.Results.{ok}
use crm_nusrv.Store.{Db}
use crm_nusrv.Store.Enums.{ClassificationStatus}
use crm_nusrv.Store.Rows.{Thread, RenewalCase, EmailMessage, Subscription}
use crm_nusrv.Mail.MessageIds.{parse_message_id_tokens, parse_primary_message_id}
use crm_nusrv.Mail.Sender.{SenderResolution, distinct}
use crm_nusrv.Mail.Threads.{thread_of}
use crm_nusrv.Mail.Correlation.Effect.{IsUse}

-- A stored message of the mailbox, in the thread, whose Message-ID is one of the tokens, letter by
-- letter.
pub record Quotes (box_id : ℕ) (tokens : List String) (db : Db) (thread_id : ℕ) : Type 0 where
  pub message : EmailMessage
  pub stored : In message (rows db.messages)
  pub mailbox : message.mail_configuration_id ≡ some box_id
  pub in_thread : message.thread_id ≡ thread_id
  pub message_id : String
  pub named : message.external_message_id ≡ some message_id
  pub quoted : In message_id tokens

pub In-distinct : (k : ℕ) (l : List ℕ) → In k (distinct l) → In k l
unfolding distinct
In-distinct k [] m = m
In-distinct k (j ∷ l) (inl e) = inl e
In-distinct k (j ∷ l) (inr m) =
    inr (In-distinct k l (In-filter (λ i. not (i == j)) k (distinct l) m).0)

In-thread_ids :
    (k : ℕ) (l : List EmailMessage)
    → In k (thread_ids l)
    → (m : EmailMessage) × In m l × (m.thread_id ≡ k)
In-thread_ids k [] m = absurd m
In-thread_ids k (x ∷ l) (inl e) = (x, inl refl, sym e)
In-thread_ids k (x ∷ l) (inr m) = let (y, there, e) = In-thread_ids k l m in (y, inr there, e)

is_exact-named :
    (tokens : List String) (m : EmailMessage)
    → is_exact tokens m ≡ true
    → (id : String) × (m.external_message_id ≡ some id) × In id tokens
is_exact-named tokens m h = elim (Option-cases m.external_message_id) [
  | inl nameless ↦ absurd (ground (arith, nameless))
  | inr (id, named) ↦
      let (x, there, same) = any-In (str_eq id) tokens (ground (arith, named)) in
      (id, named, rw ((str_eq_iff id x).0 same) there)
]

is_candidate-mailbox :
    (box_id : ℕ) (tokens : List String) (m : EmailMessage)
    → is_candidate box_id tokens m ≡ true
    → m.mail_configuration_id ≡ some box_id
is_candidate-mailbox box_id tokens m h = elim (Option-cases m.mail_configuration_id) [
  | inl nowhere ↦ absurd (ground (arith, nowhere))
  | inr (k, there) ↦ ground (arith, there)
]

pub match_threads-Quotes :
    (box_id : ℕ) (tokens : List String) (db : Db) (k : ℕ)
    → In k (match_threads_by_external_ids box_id tokens db)
    → Quotes box_id tokens db k
unfolding match_threads_by_external_ids
match_threads-Quotes box_id tokens db k h =
    let candidates = filter (is_candidate box_id tokens) (rows db.messages) in
    let (m, listed, at) =
      In-thread_ids k (filter (is_exact tokens) candidates) (In-distinct k _ h) in
    let (candidate, exact) = In-filter (is_exact tokens) m candidates listed in
    let (there, of_box) = In-filter (is_candidate box_id tokens) m (rows db.messages) candidate in
    let (id, named, quoted) = is_exact-named tokens m exact in
    record {
      message = m;
      stored = there;
      mailbox = is_candidate-mailbox box_id tokens m of_box;
      in_thread = at;
      message_id = id;
      named = named;
      quoted = quoted;
    }

pub one_thread-In : (a b : List ℕ) (k : ℕ) → one_thread a b ≡ thread k → In k a ⊎ In k b
one_thread-In [] [] k h = absurd (cc)
one_thread-In (a ∷ []) [] k h = ground arith
one_thread-In [] (b ∷ []) k h = ground arith
one_thread-In (a ∷ []) (b ∷ []) k h = ground arith
one_thread-In _ _ k h = ground arith

-- The Message-IDs that the headers of a reply quote.
abbrev pub quoted_tokens : CorrelationParams → List String
quoted_tokens params =
    token_list (parse_primary_message_id params.in_reply_to_header)
    ++ parse_message_id_tokens params.references_header

-- Why the thread of the outcome is the message's.
pub data Reason (id_text : ℕ → String) (params : CorrelationParams) (fresh : ℕ) (db : Db)
    (outcome : CorrelationOutcome) : Type 0 where
  -- The headers quote a message of the thread.
  quotes :
      Quotes params.mail_configuration_id (quoted_tokens params) db outcome.thread_id
      → Reason id_text params fresh db outcome
  -- The header names a case, and the sender is the case's customer; the thread is the case's, in
  -- the same mailbox, or a new one.
  names_case :
      (case_id : ℕ) (renewal_case : RenewalCase) (subscription : Subscription)
      (sender : SenderResolution)
      → hinted id_text params.renewal_case_id_header db ≡ some (case_id, renewal_case)
      → find renewal_case.subscription_id db.subscriptions ≡ some subscription
      → sender_of params.from_address db ≡ ok sender
      → is_customer subscription.customer_id sender ≡ true
      → (outcome.thread_id ≡ fresh)
        ⊎ ((t : Thread) × (thread_of case_id db.threads ≡ some (outcome.thread_id, t))
            × (t.mail_configuration_id ≡ params.mail_configuration_id))
      → Reason id_text params fresh db outcome
  -- It is a new thread of no case.
  separate :
      outcome.thread_id ≡ fresh
      → outcome.renewal_case_id ≡ none
      → Reason id_text params fresh db outcome

-- The sender is not known to be another customer than the message is put down to, and its case is
-- not over.
pub record IsUnsuspicious (params : CorrelationParams) (db : Db) (outcome : CorrelationOutcome)
    : Type 0 where
  pub sender :
      (k : ℕ) (s : SenderResolution)
      → outcome.customer_id ≡ some k
      → sender_of params.from_address db ≡ ok s
      → is_other k s ≡ false
  pub case :
      (k : ℕ) (c : RenewalCase)
      → outcome.renewal_case_id ≡ some k
      → find k db.renewal_cases ≡ some c
      → is_terminal_case c ≡ false

abbrev IsReady : CorrelationOutcome → Type 0
IsReady outcome = outcome.classification_status ≡ ClassificationStatus.pending

abbrev status_of : CorrelationOutcome → ClassificationStatus
status_of outcome = outcome.classification_status

abbrev customer_of : CorrelationOutcome → Option ℕ
customer_of outcome = outcome.customer_id

abbrev case_of : CorrelationOutcome → Option ℕ
case_of outcome = outcome.renewal_case_id

unescalated :
    (conflict closed : Bool)
    → for_review (conflict || closed) ≡ ClassificationStatus.pending
    → (conflict ≡ false) × (closed ≡ false)
unescalated true closed h = absurd (cc)
unescalated false true h = absurd (cc)
unescalated false false h = (refl, refl)

pub IsUse-IsUnsuspicious :
    {thread_id : ℕ} {params : CorrelationParams} {db after : Db} {outcome : CorrelationOutcome}
    → IsUse thread_id params db after outcome
    → IsReady outcome
    → IsUnsuspicious params db outcome
IsUse-IsUnsuspicious {thread_id} {params} {db} {after} {outcome} u ready =
    let (agrees, open_case) = unescalated u.conflict u.closed (sym (ap status_of u.told) ∙ ready) in
    record {
      sender = λ k s owner asked.
          apart k s asked (rw (sym (ap customer_of u.told) ∙ owner) at u.asked) ∙ agrees;
      case = λ k c owner found.
          over k c found (rw (sym (ap case_of u.told) ∙ owner) at u.looked) ∙ open_case;
    }
  where
    apart :
        (k : ℕ) (s : SenderResolution)
        → sender_of params.from_address db ≡ ok s
        → conflicts (some k) params.from_address db ≡ ok u.conflict
        → is_other k s ≡ u.conflict
    apart k s asked h = let h' = rw asked at h in cc

    over :
        (k : ℕ) (c : RenewalCase)
        → find k db.renewal_cases ≡ some c
        → is_closed_case (some k) db ≡ ok u.closed
        → is_terminal_case c ≡ u.closed
    over k c found h = ground (arith, found)
