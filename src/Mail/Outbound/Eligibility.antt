-- ===== src/Mail/Outbound/Eligibility.antt =====
-- When a row may be sent, to whom, and when it is given up.
use crm_nusrv.Base.{ℕ, ◌≡◌, ◌<◌, refl, true, false, Option, none, some, arith, str_eq_iff}
use crm_nusrv.Store.{Db}
use crm_nusrv.Store.Enums.{ReminderAudience, CustomerStatus, SubscriptionStatus}
use crm_nusrv.Renewal.Policy.{is_reminder_eligible, aggregate_effective_holds}
use crm_nusrv.Mail.Configuration.{Mailbox, Resolution, usable, unusable, Setting}
use crm_nusrv.Mail.Recipient.{ResolvedRecipient, resolve_primary_recipient}
use crm_nusrv.Mail.Outbound.{
  Context, Eligible, eligible, check_recipient, evaluate_customer, evaluate_internal, evaluate_for,
  evaluate_eligibility, resolve_mail_configuration_for_row,
}

-- What an eligible reminder to a customer rests on.
pub record MayRemind (s : Setting) (ctx : Context) (now : ℕ) (db : Db) (e : Eligible) : Type 0 where
  pub mailbox : resolve_mail_configuration_for_row s ctx db ≡ usable e.mailbox
  pub customer : ctx.customer.status ≡ CustomerStatus.active
  pub subscription : ctx.subscription.status ≡ SubscriptionStatus.active
  pub status : is_reminder_eligible ctx.renewal_case.status ≡ true
  pub not_held : (aggregate_effective_holds ctx.holds now).stop_customer_reminders ≡ false
  pub resolved : ResolvedRecipient
  pub current : resolve_primary_recipient ctx.row.customer_id db ≡ some resolved
  pub addressed : e.recipient ≡ resolved.email
  pub old : e.old_recipient ≡ ctx.row.recipient
  pub pinned : 0 < ctx.row.attempts → e.recipient ≡ ctx.row.recipient
  pub unchanged : e.recipient_changed ≡ false → e.recipient ≡ ctx.row.recipient

module _ (s : Setting) (ctx : Context) (now : ℕ) (db : Db) where
  check_recipient-eligible :
      (box : Mailbox) (o : Option ResolvedRecipient) (e : Eligible)
      → check_recipient box ctx.row o ≡ eligible e
      → (r : ResolvedRecipient) × (o ≡ some r)
        × (e.mailbox ≡ box)
        × (e.recipient ≡ r.email)
        × (e.old_recipient ≡ ctx.row.recipient)
        × (0 < ctx.row.attempts → e.recipient ≡ ctx.row.recipient)
        × (e.recipient_changed ≡ false → e.recipient ≡ ctx.row.recipient)
  unfolding check_recipient
  check_recipient-eligible box none e h = ground arith
  check_recipient-eligible box (some r) e h = (
    r,
    refl,
    ground arith,
    ground arith,
    ground arith,
    ground (arith, str_eq_iff r.email ctx.row.recipient),
    ground (arith, str_eq_iff r.email ctx.row.recipient),
  )

  evaluate_customer-eligible :
      (box : Mailbox) (o : Option ResolvedRecipient) (e : Eligible)
      → evaluate_customer box ctx now o ≡ eligible e
      → (ctx.customer.status ≡ CustomerStatus.active)
        × (ctx.subscription.status ≡ SubscriptionStatus.active)
        × (is_reminder_eligible ctx.renewal_case.status ≡ true)
        × ((aggregate_effective_holds ctx.holds now).stop_customer_reminders ≡ false)
        × (check_recipient box ctx.row o ≡ eligible e)
  unfolding evaluate_customer
  evaluate_customer-eligible box o e h = ground arith

  -- A reminder is sent only to an active customer, for an active subscription, for a case that is
  -- still reminded and not on hold, through a mailbox that resolves, to the customer's current
  -- address; and once an attempt was made, only to the address of that attempt.
  pub evaluate_eligibility-MayRemind :
      (e : Eligible)
      → ctx.row.audience ≡ ReminderAudience.customer
      → evaluate_eligibility s ctx now db ≡ eligible e
      → MayRemind s ctx now db e
  unfolding evaluate_eligibility
  evaluate_eligibility-MayRemind e audience h =
      go (resolve_mail_configuration_for_row s ctx db) refl
    where
      go :
          (res : Resolution)
          → resolve_mail_configuration_for_row s ctx db ≡ res
          → MayRemind s ctx now db e
      go (unusable reason) q = ground arith
      go (usable box) q =
          let o = resolve_primary_recipient ctx.row.customer_id db in
          let at : evaluate_customer box ctx now o ≡ eligible e =
            rw (q, evaluate_eligibility, audience) at h in
          let (c, sub, st, held, checked) = evaluate_customer-eligible box o e at in
          let (r, cur, b, a, old, pin, un) = check_recipient-eligible box o e checked in
          record {
            mailbox = rw b q;
            customer = c;
            subscription = sub;
            status = st;
            not_held = held;
            resolved = r;
            current = cur;
            addressed = a;
            old = old;
            pinned = pin;
            unchanged = un;
          }

  evaluate_for_unchanged :
      (a : ReminderAudience) (box : Mailbox) (o : Option ResolvedRecipient) (e : Eligible)
      → evaluate_for a box ctx now o ≡ eligible e
      → e.recipient_changed ≡ false
      → e.recipient ≡ ctx.row.recipient
  unfolding evaluate_internal
  evaluate_for_unchanged ReminderAudience.internal box o e h k = ground arith
  evaluate_for_unchanged ReminderAudience.customer box o e h k =
      let (_, _, _, _, checked) = evaluate_customer-eligible box o e h in
      let (_, _, _, _, _, _, un) = check_recipient-eligible box o e checked in un k

  -- An eligible row whose recipient is not to be changed keeps the recipient it has.
  pub evaluate_eligibility_unchanged :
      (e : Eligible)
      → evaluate_eligibility s ctx now db ≡ eligible e
      → e.recipient_changed ≡ false
      → e.recipient ≡ ctx.row.recipient
  evaluate_eligibility_unchanged e h k = go (resolve_mail_configuration_for_row s ctx db) refl
    where
      go :
          (res : Resolution)
          → resolve_mail_configuration_for_row s ctx db ≡ res
          → e.recipient ≡ ctx.row.recipient
      go (unusable reason) q = unfold evaluate_eligibility in ground arith
      go (usable box) q =
          evaluate_for_unchanged ctx.row.audience box
            (resolve_primary_recipient ctx.row.customer_id db) e
            (unfold evaluate_eligibility in rw (q, evaluate_eligibility) at h) k
