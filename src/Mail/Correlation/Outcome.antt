-- ===== src/Mail/Correlation/Outcome.antt =====
-- What holds of an outcome of the correlation, and that it holds where a thread is used or made.
use crm_nusrv.Base.{
  find-create, ℕ, ◌≡◌, refl, Bool, true, false, none, String, find, create, arith, if◌then◌else◌,
}
use crm_nusrv.Mail.ThreadUse.{
  update_thread, with_status, sender_of, is_other, use_thread, for_review, CorrelationParams,
  CorrelationOutcome,
}
use crm_nusrv.Mail.Correlation.{attribute_and_create_general_thread, general_thread}
use mathlib.Core.Path.{subst}
use crm_nusrv.Mail.Sender.{SenderSource, SenderResolution, unique}
use crm_nusrv.Base.Results.{Result, ok, answer-chain}
use crm_nusrv.Store.{Db}
use crm_nusrv.Store.Enums.{ClassificationStatus, CustomerStatus, ThreadStatus}
use crm_nusrv.Store.Rows.{Thread}
use crm_nusrv.Mail.Correlation.Effect.{
  IsPlaced, IsUse, IsUse-IsPlaced, use_thread-IsUse, told, created-IsPlaced, updated-IsPlaced,
  IsPlaced-trans,
}
use crm_nusrv.Mail.Correlation.Evidence.{Reason, separate, IsUnsuspicious, IsUse-IsUnsuspicious}

-- What holds of an outcome: what was written, why, and when it may be acted upon without a human.
pub record IsJustified (id_text : ℕ → String) (params : CorrelationParams) (fresh : ℕ)
    (db after : Db) (outcome : CorrelationOutcome) : Type 0 where
  pub placed : IsPlaced db after outcome
  pub reason : Reason id_text params fresh db outcome
  pub unsuspicious :
      outcome.classification_status ≡ ClassificationStatus.pending
      → IsUnsuspicious params db outcome

abbrev pub thread_id_of : CorrelationOutcome → ℕ
thread_id_of outcome = outcome.thread_id

module _ (id_text : ℕ → String) (params : CorrelationParams) (fresh : ℕ) (db : Db)
    (unused : find fresh db.threads ≡ none) where
  abbrev pub Justified : Db × CorrelationOutcome → Type 0
  Justified (after, outcome) = IsJustified id_text params fresh db after outcome

  own_sender :
      (k j : ℕ) (status : CustomerStatus) (source : SenderSource) (s : SenderResolution)
      → sender_of params.from_address db ≡ ok (unique k status source)
      → sender_of params.from_address db ≡ ok s
      → k ≡ j
      → is_other j s ≡ false
  own_sender k j status source s asked again same =
      let told : unique k status source ≡ s = cc in rw (← told) (ground arith)

  general-Justified :
      (s : SenderResolution) (forced : Bool)
      → sender_of params.from_address db ≡ ok s
      → Justified (general_thread s params fresh forced db)
  general-Justified (unique k status source) forced asked = record {
    placed = created-IsPlaced fresh db _ _ unused;
    reason = separate refl refl;
    unsuspicious = λ ready. record {
      sender = λ j s owner again. own_sender k j status source s asked again (ground arith);
      case = λ j c h. absurd (cc);
    };
  }
  general-Justified SenderResolution.ambiguous forced asked = record {
    placed = created-IsPlaced fresh db _ _ unused;
    reason = separate refl refl;
    unsuspicious = λ ready. absurd (cc);
  }
  general-Justified SenderResolution.unattributed forced asked = record {
    placed = created-IsPlaced fresh db _ _ unused;
    reason = separate refl refl;
    unsuspicious = λ ready. absurd (cc);
  }

  pub use-Justified :
      (k : ℕ) {after : Db} {outcome : CorrelationOutcome}
      → use_thread k params db ≡ ok (after, outcome)
      → (IsUse k params db after outcome → Reason id_text params fresh db outcome)
      → IsJustified id_text params fresh db after outcome
  use-Justified k h why =
      let u = use_thread-IsUse k params db h in
      record { placed = IsUse-IsPlaced u; reason = why u; unsuspicious = IsUse-IsUnsuspicious u }

  pub answered :
      {a b : Db × CorrelationOutcome}
      → ◌≡◌ {A = Result (Db × CorrelationOutcome)} (ok a) (ok b)
      → a ≡ b
  answered h = cc

  pub attributed-Justified :
      (forced : Bool) {after : Db} {outcome : CorrelationOutcome}
      → attribute_and_create_general_thread params fresh forced db ≡ ok (after, outcome)
      → IsJustified id_text params fresh db after outcome
  unfolding attribute_and_create_general_thread
  attributed-Justified forced h =
      let (s, asked, h1) = answer-chain _ (sender_of params.from_address db) h in
      subst (λ (r : Db × CorrelationOutcome). Justified r) (answered h1)
        (general-Justified s forced asked)

  pub closed_thread :
      (t : Thread) (closed : Bool)
      → let made = record db { threads = create fresh t db.threads } in
        IsPlaced db
          (if closed
            then update_thread fresh (with_status ThreadStatus.human_review) made
            else made)
          (told fresh t (for_review closed))
  closed_thread t false = created-IsPlaced fresh db t ClassificationStatus.pending unused
  closed_thread t true =
      let made = record db { threads = create fresh t db.threads } in
      IsPlaced-trans refl (created-IsPlaced fresh db t ClassificationStatus.pending unused) (
        updated-IsPlaced fresh (with_status ThreadStatus.human_review) made t
          ClassificationStatus.human_review (ground (arith, find-create fresh fresh t db.threads))
          (record {
            customer = refl;
            case = refl;
            mailbox = refl;
            subject = refl;
            later = omega arith;
          }))
