-- ===== src/Mail/Correlation/Configurations.antt =====
-- The correlation writes no mailbox's configuration.
use crm_nusrv.Base.{
  ℕ, ◌≡◌, refl, ap, inl, inr, Bool, true, false, Option, none, some, String, Table, arith,
  Bool-cases, ◌==◌,
}
use mathlib.Core.Path.{subst}
use crm_nusrv.Base.Results.{Result, ok, find_or_throw, answer-chain}
use crm_nusrv.Store.{Db}
use crm_nusrv.Store.Rows.{Thread, RenewalCase, MailConfiguration}
use crm_nusrv.Mail.Sender.{SenderResolution, unique}
use crm_nusrv.Mail.Threads.{ThreadParams, resolve_or_create}
use crm_nusrv.Mail.ReplyMatch.{HeaderMatch, thread, ambiguous, none_matches}
use crm_nusrv.Mail.ThreadUse.{
  CorrelationParams, CorrelationOutcome, use_thread, sender_of, is_terminal_case,
}
use crm_nusrv.Mail.Correlation.{
  CaseHint, no_hint, reject, attach, general_thread, attach_new, attach_to_case, try_case,
  try_renewal_case_header, hinted, attribute_and_create_general_thread, by_hint, by_match,
  correlate, is_customer,
}
use crm_nusrv.Mail.Correlation.Effect.{IsUse-IsPlaced, use_thread-IsUse}

abbrev configurations : Db → Table MailConfiguration
configurations db = db.mail_configurations

module _ (db : Db) where
  abbrev IsSame : Db → Type 0
  IsSame after = after.mail_configurations ≡ db.mail_configurations

  abbrev HintIsSame : CaseHint → Type 0
  HintIsSame (attach after outcome) = IsSame after
  HintIsSame _ = Unit

  use-IsSame :
      (k : ℕ) (params : CorrelationParams) {after : Db} {outcome : CorrelationOutcome}
      → use_thread k params db ≡ ok (after, outcome)
      → IsSame after
  use-IsSame k params h = ap configurations (IsUse-IsPlaced (use_thread-IsUse k params db h)).rest

  general-IsSame :
      (s : SenderResolution) (params : CorrelationParams) (fresh : ℕ) (forced : Bool)
      → IsSame (general_thread s params fresh forced db).0
  general-IsSame (unique k status source) params fresh forced = refl
  general-IsSame SenderResolution.ambiguous params fresh forced = refl
  general-IsSame SenderResolution.unattributed params fresh forced = refl

  told :
      {a b : Db × CorrelationOutcome}
      → ◌≡◌ {A = Result (Db × CorrelationOutcome)} (ok a) (ok b)
      → a ≡ b
  told h = cc

  hint_told : {a b : CaseHint} → ◌≡◌ {A = Result CaseHint} (ok a) (ok b) → a ≡ b
  hint_told h = cc

  attributed-IsSame :
      (params : CorrelationParams) (fresh : ℕ) (forced : Bool) {after : Db}
      {outcome : CorrelationOutcome}
      → attribute_and_create_general_thread params fresh forced db ≡ ok (after, outcome)
      → IsSame after
  unfolding attribute_and_create_general_thread
  attributed-IsSame params fresh forced h =
      let (s, asked, e) = answer-chain _ (sender_of params.from_address db) h in
      subst (λ (r : Db × CorrelationOutcome). IsSame r.0) (told e)
        (general-IsSame s params fresh forced)

  resolved-IsSame :
      (params : ThreadParams) (fresh : ℕ) → IsSame (resolve_or_create params fresh db).0
  unfolding resolve_or_create
  resolved-IsSame params fresh = ground arith

  new-IsSame :
      (case_id : ℕ) (c : RenewalCase) (customer_id : ℕ) (params : CorrelationParams) (fresh : ℕ)
      → HintIsSame (attach_new case_id c customer_id params fresh db)
  new-IsSame case_id c customer_id params fresh = elim (Bool-cases (is_terminal_case c)) [
    | inl closed ↦ rw closed (resolved-IsSame _ fresh)
    | inr live ↦ rw live (resolved-IsSame _ fresh)
  ]

  attached-IsSame :
      (case_id : ℕ) (c : RenewalCase) (customer_id : ℕ) (params : CorrelationParams) (fresh : ℕ)
      (found : Option (ℕ × Thread)) {hint : CaseHint}
      → attach_to_case case_id c customer_id params fresh found db ≡ ok hint
      → HintIsSame hint
  attached-IsSame case_id c customer_id params fresh none h =
      subst HintIsSame (hint_told h) (new-IsSame case_id c customer_id params fresh)
  attached-IsSame case_id c customer_id params fresh (some (k, t)) h =
      elim (Bool-cases (t.mail_configuration_id == params.mail_configuration_id)) [
        | inl same ↦
            let (used, did, e) = answer-chain _ (use_thread k params db) (rw same at h) in
            subst HintIsSame (hint_told e) (use-IsSame k params did)
        | inr differ ↦ subst HintIsSame (hint_told (rw differ at h)) tt
      ]

  tried-IsSame :
      (named : Option (ℕ × RenewalCase)) (params : CorrelationParams) (fresh : ℕ) {hint : CaseHint}
      → try_case named params fresh db ≡ ok hint
      → HintIsSame hint
  tried-IsSame none params fresh h = subst HintIsSame (hint_told h) tt
  tried-IsSame (some (case_id, c)) params fresh h =
      let (subscription, found, h1) =
        answer-chain _ (find_or_throw c.subscription_id db.subscriptions) h in
      let (sender, asked, h2) = answer-chain _ (sender_of params.from_address db) h1 in
      elim (Bool-cases (is_customer subscription.customer_id sender)) [
        | inl own ↦ attached-IsSame case_id c subscription.customer_id params fresh _ (rw own at h2)
        | inr stranger ↦ subst HintIsSame (hint_told (rw stranger at h2)) tt
      ]

  module _ (id_text : ℕ → String) (params : CorrelationParams) (fresh : ℕ) where
    hint-IsSame :
        (hint : CaseHint) {after : Db} {outcome : CorrelationOutcome}
        → HintIsSame hint
        → by_hint id_text hint params fresh db ≡ ok (after, outcome)
        → IsSame after
    hint-IsSame no_hint same h = attributed-IsSame params fresh false h
    hint-IsSame reject same h = attributed-IsSame params fresh true h
    hint-IsSame (attach a o) same h =
        subst (λ (r : Db × CorrelationOutcome). IsSame r.0) (told h) same

    match-IsSame :
        (m : HeaderMatch) {after : Db} {outcome : CorrelationOutcome}
        → by_match id_text m params fresh db ≡ ok (after, outcome)
        → IsSame after
    unfolding try_renewal_case_header
    match-IsSame (thread k) h = use-IsSame k params h
    match-IsSame ambiguous h = subst (λ (r : Db × CorrelationOutcome). IsSame r.0) (told h) refl
    match-IsSame none_matches h =
        let (hint, tried, e) =
          answer-chain _
            (try_case (hinted id_text params.renewal_case_id_header db) params fresh db) h in
        hint-IsSame hint (tried-IsSame _ params fresh tried) e

    pub correlate_keeps :
        {after : Db} {outcome : CorrelationOutcome}
        → correlate id_text params fresh db ≡ ok (after, outcome)
        → after.mail_configurations ≡ db.mail_configurations
    unfolding correlate
    correlate_keeps h = match-IsSame _ h
