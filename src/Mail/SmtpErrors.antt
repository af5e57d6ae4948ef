-- ===== src/Mail/SmtpErrors.antt =====
-- apps/api/src/modules/mail/smtp-error-classification.ts
pub mod Precedence
use crm_nusrv.Base.{
  ℕ, Bool, true, false, ◌&&◌, ◌||◌, Option, none, some, String, List, [], ◌∷◌, map, any, Text,
  to_upper, codes, starts_with, text_eq, str_eq, leb, ltb, if◌then◌else◌,
}

pub data HealthImpact : Type 0 where
  infrastructure message no_impact : HealthImpact

pub record Classification : Type 0 where
  pub terminal : Bool
  pub health_impact : HealthImpact

-- What the code reads of an error of nodemailer; a thrown value that is no object has none of it.
pub record SmtpError : Type 0 where
  pub message : Text
  pub code : Option String
  pub command : Option Text
  pub response_code : Option ℕ

abbrev infrastructure_codes : List String
infrastructure_codes =
    "EAUTH" ∷ "ECONNECTION" ∷ "ESOCKET" ∷ "ETIMEDOUT" ∷ "EDNS" ∷ "ECONNRESET" ∷ "ETLS" ∷ []

unfoldable pub is_permanent : Option ℕ → Bool
is_permanent none = false
is_permanent (some c) = leb 500 c && ltb c 600

unfoldable pub is_transient : Option ℕ → Bool
is_transient none = false
is_transient (some c) = leb 400 c && ltb c 500

unfoldable pub has_code : Option String → List String → Bool
has_code none l = false
has_code (some c) l = any (str_eq c) l

-- `stage === …` and `stage?.startsWith(…)`
unfoldable pub stage_is : Option Text → String → Bool
unfolding text_eq
stage_is none s = false
stage_is (some c) s = text_eq (map to_upper c) (codes s)

unfoldable pub stage_starts : Option Text → String → Bool
unfolding starts_with
stage_starts none s = false
stage_starts (some c) s = starts_with (map to_upper c) (codes s)

-- A. Connection and authentication.
unfoldable pub is_connection_failure : SmtpError → Bool
unfolding has_code stage_is
is_connection_failure e =
    has_code e.code infrastructure_codes || stage_is e.command "CONN" || stage_is e.command "AUTH"

abbrev result : Bool → HealthImpact → Classification
result t h = record { terminal = t; health_impact = h }

-- E. What nodemailer refuses to send, and everything else.
unfoldable pub classify_other : SmtpError → Classification
classify_other e =
    if has_code e.code ("EENVELOPE" ∷ "EMESSAGE" ∷ [])
    then result true message
    else result false no_impact

-- C and D. The DATA and MAIL FROM stages.
unfoldable pub classify_late : SmtpError → Classification
unfolding classify_other
classify_late e =
    if stage_starts e.command "DATA" && is_permanent e.response_code
    then result true message
    else if stage_starts e.command "MAIL" && is_permanent e.response_code
    then result false infrastructure
    else classify_other e

unfoldable pub classify_smtp_error : SmtpError → Classification
unfolding classify_late
classify_smtp_error e =
    if is_connection_failure e
    then result false infrastructure
    else if stage_starts e.command "RCPT" && is_permanent e.response_code
    then result true message
    else if stage_starts e.command "RCPT" && is_transient e.response_code
    then result false message
    else classify_late e
