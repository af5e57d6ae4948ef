-- ===== src/Mail/Correlation/Named.antt =====
-- A header that names a renewal case.
use crm_nusrv.Mail.Threads.{ThreadParams, new_thread, resolve_or_create, thread_of}
use crm_nusrv.Mail.ThreadUse.{
  update_thread, with_status, sender_of, is_other, is_terminal_case, use_thread, for_review,
  CorrelationParams,
}
use crm_nusrv.Mail.Correlation.{
  CaseHint, attach, attach_new, attach_to_case, try_case, try_renewal_case_header, hinted,
  is_customer,
}
use mathlib.Core.Path.{subst}
use crm_nusrv.Base.{
  ℕ, ◌≡◌, refl, sym, ◌∙◌, ap, inl, inr, Bool, true, false, none, some, String, find, create, arith,
  Bool-cases, Option-cases, ◌==◌, if◌then◌else◌,
}
use crm_nusrv.Base.Results.{Result, ok, find_or_throw, answer-chain, find_or_throw-eq-ok}
use crm_nusrv.Store.{Db}
use crm_nusrv.Store.Enums.{ClassificationStatus, ThreadStatus}
use crm_nusrv.Store.Rows.{Thread, RenewalCase, Subscription}
use crm_nusrv.Mail.Sender.{SenderResolution, unique}
use crm_nusrv.Mail.Correlation.Effect.{told}
use crm_nusrv.Mail.Correlation.Evidence.{names_case}
use crm_nusrv.Mail.Correlation.Outcome.{IsJustified, use-Justified, closed_thread, thread_id_of}
use crm_nusrv.Mail.Correlation.ByText.{hinted-find}

customer-not-other : (k : ℕ) (s : SenderResolution) → is_customer k s ≡ true → is_other k s ≡ false
customer-not-other k (unique j status source) h = ground arith
customer-not-other k SenderResolution.ambiguous h = refl
customer-not-other k SenderResolution.unattributed h = refl

pending-open : (closed : Bool) → for_review closed ≡ ClassificationStatus.pending → closed ≡ false
pending-open true h = absurd (cc)
pending-open false h = refl

module _ (id_text : ℕ → String) (params : CorrelationParams) (fresh : ℕ) (db : Db)
    (unused : find fresh db.threads ≡ none) where
  hint_told : {a b : CaseHint} → ◌≡◌ {A = Result CaseHint} (ok a) (ok b) → a ≡ b
  hint_told h = cc

  abbrev pub HintJustified : CaseHint → Type 0
  HintJustified (attach after outcome) = IsJustified id_text params fresh db after outcome
  HintJustified _ = Unit

  abbrev params_of : ℕ → ℕ → ThreadParams
  params_of case_id customer_id = record {
    renewal_case_id = case_id;
    customer_id = some customer_id;
    mail_configuration_id = params.mail_configuration_id;
    subject = params.subject;
    occurred_at = params.occurred_at;
  }

  abbrev reviewed_if : Bool → Thread → Db
  reviewed_if closed t =
      let made = record db { threads = create fresh t db.threads } in
      if closed then update_thread fresh (with_status ThreadStatus.human_review) made else made

  attach_new_lem :
      (case_id : ℕ) (c : RenewalCase) (customer_id : ℕ)
      → thread_of case_id db.threads ≡ none
      → attach_new case_id c customer_id params fresh db
        ≡ attach (reviewed_if (is_terminal_case c) (new_thread (params_of case_id customer_id))) (
            told fresh
              (new_thread (params_of case_id customer_id))
              (for_review (is_terminal_case c)))
  unfolding resolve_or_create
  attach_new_lem case_id c customer_id lone = ground (arith, lone)

  module _ (case_id : ℕ) (c : RenewalCase) (subscription : Subscription) (sender : SenderResolution)
      (named : hinted id_text params.renewal_case_id_header db ≡ some (case_id, c))
      (found : find c.subscription_id db.subscriptions ≡ some subscription)
      (asked : sender_of params.from_address db ≡ ok sender)
      (own : is_customer subscription.customer_id sender ≡ true) where
    same_sender :
        (k : ℕ) (s : SenderResolution)
        → subscription.customer_id ≡ k
        → sender_of params.from_address db ≡ ok s
        → is_other k s ≡ false
    same_sender k s e again =
        let one : sender ≡ s = cc in
        rw (← one) (rw (← e) (customer-not-other subscription.customer_id sender own))

    same_case :
        (k : ℕ) (r : RenewalCase)
        → case_id ≡ k
        → find k db.renewal_cases ≡ some r
        → is_terminal_case r ≡ is_terminal_case c
    same_case k r e there =
        let stored = hinted-find id_text params.renewal_case_id_header db case_id c named in
        let one : r ≡ c = cc in ap is_terminal_case one

    new-Justified :
        thread_of case_id db.threads ≡ none
        → HintJustified (attach_new case_id c subscription.customer_id params fresh db)
    new-Justified lone =
        subst HintJustified (sym (attach_new_lem case_id c subscription.customer_id lone)) (record {
          placed = closed_thread id_text params fresh db unused _ (is_terminal_case c);
          reason = names_case case_id c subscription sender named found asked own (inl refl);
          unsuspicious = λ ready. record {
            sender = λ k s owner again. same_sender k s (ground arith) again;
            case = λ k r owner there. same_case k r (ground arith) there ∙ pending-open _ ready;
          };
        })

    attached-Justified :
        {hint : CaseHint}
        → attach_to_case case_id c subscription.customer_id params fresh
            (thread_of case_id db.threads)
            db
          ≡ ok hint
        → HintJustified hint
    attached-Justified h = elim (Option-cases (thread_of case_id db.threads)) [
      | inl lone ↦ subst HintJustified (hint_told (rw lone at h)) (new-Justified lone)
      | inr ((k, t), there) ↦
          elim (Bool-cases (t.mail_configuration_id == params.mail_configuration_id)) [
            | inl same ↦
                let (used, did, e) =
                  answer-chain _ (use_thread k params db) (rw same at (rw there at h)) in
                subst HintJustified (hint_told e) (
                  use-Justified id_text params fresh db unused k did (λ u.
                    names_case case_id c subscription sender named found asked own (
                      inr (
                        t,
                        there ∙ ap (λ (i : ℕ). some (i, t)) (sym (ap thread_id_of u.told)),
                        ground arith,
                      ))))
            | inr differ ↦ subst HintJustified (hint_told (rw differ at (rw there at h))) tt
          ]
    ]

  case-Justified :
      (case_id : ℕ) (c : RenewalCase) {hint : CaseHint}
      → hinted id_text params.renewal_case_id_header db ≡ some (case_id, c)
      → try_case (some (case_id, c)) params fresh db ≡ ok hint
      → HintJustified hint
  case-Justified case_id c named answer =
      let (subscription, found, h1) =
        answer-chain _ (find_or_throw c.subscription_id db.subscriptions) answer in
      let (sender, asked, h2) = answer-chain _ (sender_of params.from_address db) h1 in
      elim (Bool-cases (is_customer subscription.customer_id sender)) [
        | inl own ↦
            attached-Justified case_id c subscription sender named
              (find_or_throw-eq-ok c.subscription_id db.subscriptions found) asked own
              (rw own at h2)
        | inr stranger ↦ subst HintJustified (hint_told (rw stranger at h2)) tt
      ]

  pub hint-Justified :
      {hint : CaseHint}
      → try_renewal_case_header id_text params fresh db ≡ ok hint
      → HintJustified hint
  unfolding try_renewal_case_header
  hint-Justified h = elim (Option-cases (hinted id_text params.renewal_case_id_header db)) [
    | inl nothing ↦ subst HintJustified (hint_told (rw nothing at h)) tt
    | inr ((case_id, c), named) ↦ case-Justified case_id c named (rw named at h)
  ]
