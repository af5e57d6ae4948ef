-- ===== src/Mail/Sanitize.antt =====
-- `sanitizeError` of apps/api/src/modules/mail/mail-outbound.service.ts: what is kept of the message
-- of a failed send.
pub mod Redacted
use crm_nusrv.Base.{
  ℕ, zero, suc, ◌+◌, Bool, true, false, ◌&&◌, ◌||◌, List, [], ◌∷◌, ◌++◌, Text, codes, leb, ◌==◌,
  length, take, if◌then◌else◌,
}
use mathlib.Core.List.{reverse}

-- `[A-Za-z0-9+/]`
abbrev pub is_base64 : ℕ → Bool
is_base64 c =
    (leb b'A' c && leb c b'Z')
    || (leb b'a' c && leb c b'z')
    || (leb b'0' c && leb c b'9')
    || c == b'+'
    || c == b'/'

abbrev pub redacted : Text
redacted = codes "[REDACTED]"

-- What a finished run of such characters leaves (`run` is in reverse).
unfoldable pub flush : Text → Text
flush run = if leb 40 (length run) then redacted else reverse run

-- `replace(/[A-Za-z0-9+/]{40,}={0,2}/g, '[REDACTED]')`: the run so far, in reverse, and how many `=`
-- the match may still take.
unfoldable pub redact : Text → ℕ → Text → Text
unfolding flush
redact run pads [] = flush run
redact run zero (c ∷ s) =
    let longer = redact (c ∷ run) 0 s in
    let ended = flush run ++ c ∷ redact [] 0 s in
    let padded = flush run ++ redact [] 1 s in
    if is_base64 c then longer else if leb 40 (length run) && c == b'=' then padded else ended
redact run (suc pads) (c ∷ s) =
    let longer = redact (c ∷ run) 0 s in
    let ended = flush run ++ c ∷ redact [] 0 s in
    let padded = redact run pads s in
    if is_base64 c then longer else if c == b'=' then padded else ended

unfoldable pub sanitize_error : Text → Text
unfolding redact
sanitize_error message = take 1000 (redact [] 0 message)
