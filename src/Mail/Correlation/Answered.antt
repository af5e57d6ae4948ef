-- ===== src/Mail/Correlation/Answered.antt =====
-- Where every row that is referred to is there, the correlation answers.
use crm_nusrv.Base.{
  ℕ, ◌≡◌, refl, sym, inl, inr, Bool, Option, none, some, String, List, [], ◌∷◌, Table, find,
  find_first, In, arith, Bool-cases, ◌==◌, is_empty,
}
use crm_nusrv.Base.Results.{Result, ok, find_or_throw, ◌>>=◌, find_or_throw-eq-ok}
use crm_nusrv.Store.{Db}
use crm_nusrv.Store.Rows.{Thread, EmailMessage, EmailAddress, RenewalCase, Customer}
use crm_nusrv.Mail.Sender.{
  unattributed, SenderSource, customers_of, is_channel, by_channel, finalize,
  resolve_sender_customer, normalize_email_address,
}
use crm_nusrv.Mail.Threads.{is_thread_of, thread_of}
use crm_nusrv.Mail.ReplyMatch.{
  HeaderMatch, thread, ambiguous, none_matches, rows, token_list, match_by_reply_headers,
}
use crm_nusrv.Mail.ThreadUse.{CorrelationParams, sender_of, conflicts, is_closed_case, use_thread}
use crm_nusrv.Mail.Correlation.{
  CaseHint, no_hint, reject, attach, attach_to_case, try_case, try_renewal_case_header, hinted,
  attribute_and_create_general_thread, by_hint, by_match, correlate, is_customer,
}
use crm_nusrv.Mail.Correlation.Evidence.{Quotes, match_threads-Quotes, one_thread-In, In-distinct}
use crm_nusrv.Mail.Correlation.ByText.{hinted-find}

abbrev pub IsThere {ℓ} : {A : Type ℓ} → ℕ → Table A → Type ℓ
IsThere {A = A} k t = (a : A) × (find k t ≡ some a)

-- The foreign keys of the schema: a row that is referred to is there.
pub record IsConsistent (db : Db) : Type 0 where
  pub threads : (m : EmailMessage) → In m (rows db.messages) → IsThere m.thread_id db.threads
  pub cases :
      (k : ℕ) (t : Thread) (c : ℕ)
      → find k db.threads ≡ some t
      → t.renewal_case_id ≡ some c
      → IsThere c db.renewal_cases
  pub subscriptions :
      (k : ℕ) (c : RenewalCase)
      → find k db.renewal_cases ≡ some c
      → IsThere c.subscription_id db.subscriptions
  pub customers :
      (a : EmailAddress) → In a (rows db.email_addresses) → IsThere a.customer_id db.customers

abbrev pub Answers {ℓ} : {A : Type ℓ} → Result A → Type ℓ
Answers {A = A} r = (a : A) × (r ≡ ok a)

chain-Answers {ℓ κ} :
    {A : Type ℓ} {B : Type κ} (first : Result A) (next : A → Result B)
    → Answers first
    → ((a : A) → first ≡ ok a → Answers (next a))
    → Answers (first >>= next)
chain-Answers first next (a, e) f = let (b, h) = f a e in (b, rw e h)

found-Answers {ℓ} : {A : Type ℓ} (k : ℕ) (t : Table A) → IsThere k t → Answers (find_or_throw k t)
found-Answers k t (a, e) = (a, ground (arith, e))

find_first-IsThere {ℓ} :
    {A : Type ℓ} (p : A → Bool) (t : Table A) {k : ℕ} {a : A}
    → find_first p t ≡ some (k, a)
    → IsThere k t
find_first-IsThere p [] h = absurd (cc)
find_first-IsThere p ((j, b) ∷ t) {k} {a} h = elim (Bool-cases (j == k)) [
  | inl same ↦ (b, rw same refl)
  | inr differ ↦ elim (Bool-cases (p b)) [
    | inl first ↦
        let one : ◌≡◌ {A = Option (ℕ × _)} (some (j, b)) (some (k, a)) = rw first at h in
        absurd (ground (arith, differ))
    | inr later ↦ let (x, there) = find_first-IsThere p t (rw later at h) in (x, rw differ there)
  ]
]

In-customers_of :
    (p : EmailAddress → Bool) (t : Table EmailAddress) (k : ℕ)
    → In k (customers_of p t)
    → (a : EmailAddress) × In a (rows t) × (a.customer_id ≡ k)
In-customers_of p [] k i = absurd i
In-customers_of p ((j, a) ∷ t) k i = elim (Bool-cases (p a)) [
  | inl listed ↦ elim (rw listed at i) [
    | inl e ↦ (a, inl refl, sym e)
    | inr more ↦ let (b, there, e) = In-customers_of p t k more in (b, inr there, e)
  ]
  | inr other ↦ let (b, there, e) = In-customers_of p t k (rw other at i) in (b, inr there, e)
]

module _ (db : Db) (consistent : IsConsistent db) where
  finalize-Answers :
      (k : ℕ) (source : SenderSource) → IsThere k db.customers → Answers (finalize k source db)
  finalize-Answers k source there =
      chain-Answers _ _ (found-Answers k db.customers there) (λ c e. (_, refl))

  sender-Answers : (from_address : Option String) → Answers (sender_of from_address db)
  unfolding resolve_sender_customer
  sender-Answers none = (_, refl)
  sender-Answers (some address) = elim (Bool-cases (is_empty address)) [
    | inl nothing ↦ (unattributed, rw nothing refl)
    | inr given ↦ rw given (
        by_channel-Answers _ _ (λ k i.
          let (a, there, e) =
            In-customers_of (is_channel (normalize_email_address address)) db.email_addresses k
              (In-distinct k _ i) in
          rw (← e) (consistent.customers a there)))
  ]
    where
      by_channel-Answers :
          (l : List ℕ) (candidates : List (ℕ × Customer))
          → ((k : ℕ) → In k l → IsThere k db.customers)
          → Answers (by_channel l candidates db)
      by_channel-Answers [] candidates h = (_, refl)
      by_channel-Answers (k ∷ []) candidates h = finalize-Answers k _ (h k (inl refl))
      by_channel-Answers (_ ∷ _ ∷ _) candidates h = (_, refl)

  use_thread-Answers :
      (k : ℕ) (params : CorrelationParams) → IsThere k db.threads → Answers (use_thread k params db)
  unfolding use_thread
  use_thread-Answers k params there = chain-Answers _ _ (found-Answers k db.threads there) (λ t e.
      chain-Answers _ _ (conflict-Answers t.customer_id) (λ conflict _.
        chain-Answers _ _
          (closed-Answers t.renewal_case_id
            (λ c named. consistent.cases k t c (find_or_throw-eq-ok k db.threads e) named))
          (λ closed _. (_, refl))))
    where
      conflict-Answers : (customer : Option ℕ) → Answers (conflicts customer params.from_address db)
      conflict-Answers none = (_, refl)
      conflict-Answers (some c) =
          chain-Answers _ _ (sender-Answers params.from_address) (λ s e. (_, refl))

      closed-Answers :
          (case_id : Option ℕ)
          → ((c : ℕ) → case_id ≡ some c → IsThere c db.renewal_cases)
          → Answers (is_closed_case case_id db)
      closed-Answers none h = (_, refl)
      closed-Answers (some c) h =
          chain-Answers _ _ (found-Answers c db.renewal_cases (h c refl)) (λ r e. (_, refl))

  abbrev FoundThread : HeaderMatch → Type 0
  FoundThread (thread k) = IsThere k db.threads
  FoundThread _ = Unit

  match-FoundThread :
      (box_id : ℕ) (in_reply_to : Option String) (references : List String) (m : HeaderMatch)
      → match_by_reply_headers box_id in_reply_to references db ≡ m
      → FoundThread m
  unfolding match_by_reply_headers
  match-FoundThread box_id in_reply_to references ambiguous h = tt
  match-FoundThread box_id in_reply_to references none_matches h = tt
  match-FoundThread box_id in_reply_to references (thread k) h = elim (one_thread-In _ _ k h) [
    | inl first ↦ quoted (match_threads-Quotes box_id (token_list in_reply_to) db k first)
    | inr more ↦ quoted (match_threads-Quotes box_id references db k more)
  ]
    where
      quoted : {tokens : List String} → Quotes box_id tokens db k → IsThere k db.threads
      quoted q = rw (← q.in_thread) (consistent.threads q.message q.stored)

  attach-Answers :
      (case_id : ℕ) (c : RenewalCase) (customer_id : ℕ) (params : CorrelationParams) (fresh : ℕ)
      (found : Option (ℕ × Thread))
      → thread_of case_id db.threads ≡ found
      → Answers (attach_to_case case_id c customer_id params fresh found db)
  attach-Answers case_id c customer_id params fresh none h = (_, refl)
  attach-Answers case_id c customer_id params fresh (some (k, t)) h =
      elim (Bool-cases (t.mail_configuration_id == params.mail_configuration_id)) [
        | inl same ↦ rw same (
            chain-Answers _ _
              (use_thread-Answers k params (find_first-IsThere (is_thread_of case_id) db.threads h))
              (λ used e. (_, refl)))
        | inr differ ↦ (reject, rw differ refl)
      ]

  module _ (id_text : ℕ → String) where
    hint-Answers :
        (params : CorrelationParams) (fresh : ℕ) (named : Option (ℕ × RenewalCase))
        → hinted id_text params.renewal_case_id_header db ≡ named
        → Answers (try_case named params fresh db)
    hint-Answers params fresh none h = (_, refl)
    hint-Answers params fresh (some (case_id, c)) h =
        let stored = hinted-find id_text params.renewal_case_id_header db case_id c h in
        chain-Answers _ _
          (found-Answers c.subscription_id db.subscriptions
            (consistent.subscriptions case_id c stored))
          (λ subscription _. chain-Answers _ _ (sender-Answers params.from_address) (λ sender _.
            elim (Bool-cases (is_customer subscription.customer_id sender)) [
              | inl own ↦
                  rw own (attach-Answers case_id c subscription.customer_id params fresh _ refl)
              | inr stranger ↦ (reject, rw stranger refl)
            ]))

    by_hint-Answers :
        (params : CorrelationParams) (fresh : ℕ) (hint : CaseHint)
        → Answers (by_hint id_text hint params fresh db)
    unfolding attribute_and_create_general_thread
    by_hint-Answers params fresh no_hint =
        chain-Answers _ _ (sender-Answers params.from_address) (λ sender _. (_, refl))
    by_hint-Answers params fresh reject =
        chain-Answers _ _ (sender-Answers params.from_address) (λ sender _. (_, refl))
    by_hint-Answers params fresh (attach after outcome) = (_, refl)

    by_match-Answers :
        (params : CorrelationParams) (fresh : ℕ) (m : HeaderMatch)
        → FoundThread m
        → Answers (by_match id_text m params fresh db)
    unfolding try_renewal_case_header
    by_match-Answers params fresh (thread k) there = use_thread-Answers k params there
    by_match-Answers params fresh ambiguous there = (_, refl)
    by_match-Answers params fresh none_matches there =
        chain-Answers _ _ (hint-Answers params fresh _ refl)
          (λ hint _. by_hint-Answers params fresh hint)

    pub correlate-Answers :
        (params : CorrelationParams) (fresh : ℕ) → Answers (correlate id_text params fresh db)
    unfolding correlate
    correlate-Answers params fresh =
        by_match-Answers params fresh _ (match-FoundThread _ _ _ _ refl)
