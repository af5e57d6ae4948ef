-- ===== src/Mail/SmtpErrors/Precedence.antt =====
-- Which failures are final, and which say something of the mailbox.
use crm_nusrv.Base.{Bool-cases, inl, inr, ◌↔◌, ◌≡◌, ◌⊎◌, true, false, ◌∷◌, [], arith}
use crm_nusrv.Mail.SmtpErrors.{
  SmtpError, infrastructure, message, classify_smtp_error, is_connection_failure, is_permanent,
  stage_starts, has_code,
}

-- A permanent reply (5xx) at the stage of the recipient or of the content, or a message that
-- nodemailer would not send.
abbrev pub IsRejected : SmtpError → Type 0
IsRejected e =
    ((is_permanent e.response_code ≡ true)
      × ((stage_starts e.command "RCPT" ≡ true) ⊎ (stage_starts e.command "DATA" ≡ true)))
    ⊎ (has_code e.code ("EENVELOPE" ∷ "EMESSAGE" ∷ []) ≡ true)

-- A failure is final only if the message was rejected and the connection did not fail, and it then
-- says nothing of the mailbox's health.
pub terminal_needs :
    (e : SmtpError)
    → (classify_smtp_error e).terminal ≡ true
    → (is_connection_failure e ≡ false)
      × IsRejected e
      × ((classify_smtp_error e).health_impact ≡ message)
unfolding classify_smtp_error
terminal_needs e h = ground arith

-- A failure that concerns the mailbox and not the message: of the connection, or a permanent refusal
-- of the sender.
abbrev pub IsOfMailbox : SmtpError → Type 0
IsOfMailbox e =
    (is_connection_failure e ≡ true)
    ⊎ ((is_permanent e.response_code ≡ true)
        × (stage_starts e.command "MAIL" ≡ true)
        × (stage_starts e.command "RCPT" ≡ false)
        × (stage_starts e.command "DATA" ≡ false))

-- A failure counts against the mailbox exactly if the connection failed, whatever reply code came with
-- it, or the sender was refused for good.
pub infrastructure_iff :
    (e : SmtpError) → ((classify_smtp_error e).health_impact ≡ infrastructure) ↔ IsOfMailbox e
unfolding classify_smtp_error
infrastructure_iff e = (to, from)
  where
    to : (classify_smtp_error e).health_impact ≡ infrastructure → IsOfMailbox e
    to h = elim (Bool-cases (is_connection_failure e)) [
      | inl failed ↦ inl failed
      | inr alive ↦ inr (ground arith, ground arith, ground arith, ground arith)
    ]

    from : IsOfMailbox e → (classify_smtp_error e).health_impact ≡ infrastructure
    from (inl failed) = ground arith
    from (inr refused) = ground arith
