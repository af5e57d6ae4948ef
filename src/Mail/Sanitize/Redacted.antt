-- ===== src/Mail/Sanitize/Redacted.antt =====
-- No credential-like fragment survives.
use crm_nusrv.Base.{
  ℕ, zero, suc, ◌≤◌, ◌<◌, ◌≡◌, ◌⊎◌, inl, inr, ◌&&◌, ◌==◌, refl, true, false, [], ◌∷◌, ◌++◌, Text,
  codes, All, Bool-cases, leb, length, take, length-take-le, arith, if◌then◌else◌,
}
use mathlib.Core.List.{reverse_aux, reverse_aux-eq, append-nil}
use crm_nusrv.Mail.Sanitize.{is_base64, redacted, flush, redact, sanitize_error}

-- No run of base64 characters is 40 long, counted from `n` characters before the text.
abbrev pub ShortRuns : ℕ → Text → Type 0
ShortRuns n [] = n < 40
ShortRuns n (c ∷ s) = (n < 40) × ShortRuns (if is_base64 c then suc n else 0) s

sanitize_test :
    sanitize_error (codes "key=QUJDREVGR0hJSktMTU5PUFFSU1RVVldYWVphYmNkZWZn== end")
    ≡ codes "key=[REDACTED] end"
unfolding sanitize_error
sanitize_test = refl

ShortRuns-lt : (n : ℕ) (s : Text) → ShortRuns n s → n < 40
ShortRuns-lt n [] h = h
ShortRuns-lt n (c ∷ s) h = h.0

abbrev AllBase64 : Text → Type 0
AllBase64 = All (λ c. is_base64 c ≡ true)

ShortRuns-reverse_aux :
    (run rest : Text)
    → AllBase64 run
    → ShortRuns (length run) rest
    → ShortRuns 0 (reverse_aux run rest)
ShortRuns-reverse_aux [] rest h k = k
ShortRuns-reverse_aux (c ∷ run) rest (b, h) k =
    ShortRuns-reverse_aux run (c ∷ rest) h
      (let lt = ShortRuns-lt (suc (length run)) rest k in (omega arith, rw b k))

ShortRuns-redacted : (rest : Text) → ShortRuns 0 rest → ShortRuns 0 (redacted ++ rest)
ShortRuns-redacted rest h = ground arith

-- The end of a run: what follows must not go on with it.
ShortRuns-flush :
    (run rest : Text)
    → AllBase64 run
    → ShortRuns 0 rest
    → (length run < 40 → ShortRuns (length run) rest)
    → ShortRuns 0 (flush run ++ rest)
unfolding flush
ShortRuns-flush run rest h long short = elim (Bool-cases (leb 40 (length run))) [
  | inl is_long ↦ rw is_long (ShortRuns-redacted rest long)
  | inr is_short ↦
      rw (is_short, ← reverse_aux-eq run rest)
        (ShortRuns-reverse_aux run rest h (short (ground arith)))
]

ended :
    (run : Text) (c : ℕ) (rest : Text)
    → AllBase64 run
    → is_base64 c ≡ false
    → ShortRuns 0 rest
    → ShortRuns 0 (flush run ++ c ∷ rest)
ended run c rest h b k = ShortRuns-flush run (c ∷ rest) h (omega arith, rw b k) (λ lt. (lt, rw b k))

flush-short : (run : Text) → AllBase64 run → ShortRuns 0 (flush run)
flush-short run h =
    rw (append-nil (flush run)) at (ShortRuns-flush run [] h (omega arith) (λ lt. lt))

redact-ShortRuns :
    (run : Text) (pads : ℕ) (s : Text)
    → AllBase64 run
    → (pads ≡ 0) ⊎ (run ≡ [])
    → ShortRuns 0 (redact run pads s)
unfolding redact
redact-ShortRuns run pads [] h k = flush-short run h
redact-ShortRuns run zero (c ∷ s) h k = elim (Bool-cases (is_base64 c)) [
  | inl b ↦ rw b (redact-ShortRuns (c ∷ run) 0 s (b, h) (inl refl))
  | inr b ↦ elim (Bool-cases (leb 40 (length run) && c == b'=')) [
    | inl pad ↦
        rw (b, pad)
          (ShortRuns-flush run (redact [] 1 s) h (redact-ShortRuns [] 1 s tt (inr refl))
            (λ lt. absurd (ground arith)))
    | inr other ↦
        rw (b, other) (ended run c (redact [] 0 s) h b (redact-ShortRuns [] 0 s tt (inl refl)))
  ]
]
redact-ShortRuns [] (suc pads) (c ∷ s) h k = elim (Bool-cases (is_base64 c)) [
  | inl b ↦ rw b (redact-ShortRuns (c ∷ []) 0 s (b, tt) (inl refl))
  | inr b ↦ elim (Bool-cases (c == b'=')) [
    | inl pad ↦ rw (b, pad) (redact-ShortRuns [] pads s tt (inr refl))
    | inr other ↦
        rw (b, other) (ended [] c (redact [] 0 s) tt b (redact-ShortRuns [] 0 s tt (inl refl)))
  ]
]
redact-ShortRuns (d ∷ run) (suc pads) (c ∷ s) h k = ground arith

ShortRuns-take : (m n : ℕ) (s : Text) → ShortRuns n s → ShortRuns n (take m s)
ShortRuns-take zero n s h = ShortRuns-lt n s h
ShortRuns-take (suc m) n [] h = h
ShortRuns-take (suc m) n (c ∷ s) (lt, h) =
    (lt, ShortRuns-take m (if is_base64 c then suc n else 0) s h)

-- What is kept of an error message has at most 1000 characters and no run of 40 base64 characters,
-- so no credential of that form.
pub sanitize_error_safe :
    (message : Text)
    → (length (sanitize_error message) ≤ 1000) × ShortRuns 0 (sanitize_error message)
unfolding sanitize_error
sanitize_error_safe message = (
  length-take-le 1000 (redact [] 0 message),
  ShortRuns-take 1000 0 (redact [] 0 message) (redact-ShortRuns [] 0 message tt (inl refl)),
)
