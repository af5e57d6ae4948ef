-- ===== src/Mail/InboundBody/Bounded.antt =====
-- The text that is kept fits its column.
use crm_nusrv.Base.{
  is_empty, trimmed, ℕ, ◌≤◌, Option, none, some, leb, ◌-◌, String, arith, Bool-cases, inl, inr,
}
use crm_nusrv.Mail.InboundBody.{
  derive_inbound_body_html, text_of, bounded_unless_empty, truncate_utf8_bytes, bound_bytes,
  derive_inbound_body_text, html_to_safe_plain_text,
}
use Prim.Native.Char.{len_utf8}
use Prim.Native.String
use Prim.Native.String.len
use text.Mathlib.TextPositions.{len-append}

-- Nothing, or a text that fits.
abbrev pub Fits : Option String → Type 0
Fits none = Unit
Fits (some s) = String.len s ≤ 60000

len-truncate : (n : ℕ) (s : String) → String.len (truncate_utf8_bytes n s) ≤ n
unfolding truncate_utf8_bytes
len-truncate n String.[] = omega arith
len-truncate n (String.◌∷◌ c s) = elim (Bool-cases (leb (len_utf8 c) n)) [
  | inl fits ↦ rw fits (rw len.cons (ground (arith, len-truncate (n - len_utf8 c) s)))
  | inr over ↦ rw over (omega arith)
]

bound_bytes-short : (s : String) → String.len (bound_bytes s) ≤ 60000
unfolding bound_bytes
bound_bytes-short s = elim (Bool-cases (leb (String.len s) 60000)) [
  | inl short ↦ rw short (ground arith)
  | inr long ↦ rw long (rw len-append (omega (arith, len-truncate 59980 s)))
]

bounded_unless_empty-short : (s : String) → String.len (bounded_unless_empty s) ≤ 60000
bounded_unless_empty-short s = elim (Bool-cases (is_empty s)) [
  | inl nothing ↦ rw nothing (omega arith)
  | inr text ↦ rw text (bound_bytes-short s)
]

-- The text that is kept of a message, whatever its parts hold, has at most 60000 bytes, which its
-- column holds; so has what is kept of its HTML.
pub derive_inbound_body_bounds :
    (plain html : Option String)
    → (String.len (derive_inbound_body_text plain html) ≤ 60000)
      × Fits (derive_inbound_body_html html)
unfolding derive_inbound_body_text derive_inbound_body_html
derive_inbound_body_bounds plain html =
    let p = trimmed (text_of plain) in
    (
      elim (Bool-cases (is_empty p)) [
        | inl no_text ↦ rw no_text (elim (Bool-cases (is_empty (trimmed (text_of html)))) [
          | inl no_html ↦ rw no_html (omega arith)
          | inr some_html ↦
              rw some_html (bounded_unless_empty-short (html_to_safe_plain_text (text_of html)))
        ])
        | inr some_text ↦ rw some_text (bound_bytes-short p)
      ],
      elim (Bool-cases (is_empty (trimmed (text_of html)))) [
        | inl no_html ↦ rw no_html tt
        | inr some_html ↦ rw some_html (bound_bytes-short (text_of html))
      ],
    )
