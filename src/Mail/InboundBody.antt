-- ===== src/Mail/InboundBody.antt =====
-- apps/api/src/modules/mail/mail-inbound-body.util.ts: the text that is kept of an inbound message.
pub mod Bounded
use crm_nusrv.Base.{
  ℕ, zero, suc, ◌+◌, ◌-◌, Bool, true, false, not, ◌&&◌, ◌||◌, Option, none, some, List, [], ◌∷◌,
  map, String, ltb, leb, ◌==◌, lower_char, trimmed, is_empty, is_char, if◌then◌else◌,
}
use Prim.Native.Char.{Char, code, len_utf8}
use Prim.Native.String

abbrev pub safe_text_byte_limit : ℕ
safe_text_byte_limit = 60000

abbrev pub truncation_marker : String
truncation_marker = String.◌∷◌ "\n" "[... truncated ...]"

-- `truncateUtf8Bytes`: the characters of the text up to the first that does not fit whole.
unfoldable pub truncate_utf8_bytes : ℕ → String → String
truncate_utf8_bytes max_bytes String.[] = String.[]
truncate_utf8_bytes max_bytes (String.◌∷◌ c s) =
    let rest = truncate_utf8_bytes (max_bytes - len_utf8 c) s in
    if leb (len_utf8 c) max_bytes then String.◌∷◌ c rest else String.[]

-- `boundBytes`
unfoldable pub bound_bytes : String → String
unfolding truncate_utf8_bytes
bound_bytes value =
    if leb (String.len value) safe_text_byte_limit
    then value
    else String.◌++◌
        (truncate_utf8_bytes (safe_text_byte_limit - String.len truncation_marker) value)
        truncation_marker

-- `replace(pattern, replacement)` with the flag `g`: `matcher` gives the length of the match that
-- begins here. The number counts the characters of the last match that are still to be passed over.
abbrev pub replace_all : (String → Option ℕ) → String → ℕ → String → String
replace_all matcher replacement skip String.[] = String.[]
replace_all matcher replacement (suc skip) (String.◌∷◌ c s) = replace_all matcher replacement skip s
replace_all matcher replacement zero (String.◌∷◌ c s) = elim (matcher (String.◌∷◌ c s)) [
  | none ↦ String.◌∷◌ c (replace_all matcher replacement zero s)
  | some length ↦ String.◌++◌ replacement (replace_all matcher replacement (length - 1) s)
]

abbrev pub replaced : (String → Option ℕ) → String → String → String
replaced matcher replacement s = replace_all matcher replacement 0 s

-- The text after a literal, with its length; the flag `i` makes no difference of case.
abbrev pub after_literal : String → ℕ → String → Option (ℕ × String)
after_literal String.[] n s = some (n, s)
after_literal (String.◌∷◌ d word) n String.[] = none
after_literal (String.◌∷◌ d word) n (String.◌∷◌ c s) =
    let rest = after_literal word (suc n) s in if code (lower_char c) == code d then rest else none

abbrev length_of : Option (ℕ × String) → Option ℕ
length_of none = none
length_of (some (n, _)) = some n

abbrev pub literal : String → String → Option ℕ
literal word s = length_of (after_literal word 0 s)

abbrev or_further : Option ℕ → Option ℕ → Option ℕ
or_further (some n) further = some n
or_further none none = none
or_further none (some n) = some (suc n)

-- The characters up to the end of the first `word`.
abbrev pub up_to : String → String → Option ℕ
up_to word String.[] = none
up_to word (String.◌∷◌ c s) = or_further (literal word (String.◌∷◌ c s)) (up_to word s)

abbrev longer : ℕ → Option ℕ → Option ℕ
longer n none = none
longer n (some k) = some (n + k)

abbrev then_up_to : String → Option (ℕ × String) → Option ℕ
then_up_to word none = none
then_up_to word (some (n, rest)) = longer n (up_to word rest)

-- From `start` to the first `end` after it.
abbrev pub from_to : String → String → String → Option ℕ
from_to start end s = then_up_to end (after_literal start 0 s)

abbrev first_of : List (String → Option ℕ) → String → Option ℕ
first_of [] s = none
first_of (matcher ∷ more) s = elim (matcher s) [ some n ↦ some n | none ↦ first_of more s ]

-- `/<(br|br\/|br \/)>/gi`
abbrev line_break : String → Option ℕ
line_break = first_of (literal "<br>" ∷ literal "<br/>" ∷ literal "<br />" ∷ [])

-- `/<\/(p|div|tr|table|li|h[1-6])>/gi`
abbrev block_end : String → Option ℕ
block_end = first_of (
    literal "</p>"
    ∷ literal "</div>"
    ∷ literal "</tr>"
    ∷ literal "</table>"
    ∷ literal "</li>"
    ∷ literal "</h1>"
    ∷ literal "</h2>"
    ∷ literal "</h3>"
    ∷ literal "</h4>"
    ∷ literal "</h5>"
    ∷ literal "</h6>"
    ∷ [])

-- `/<(p|div|tr|li)[^>]*>/gi`
abbrev block_start : String → Option ℕ
block_start =
    first_of (from_to "<p" ">" ∷ from_to "<div" ">" ∷ from_to "<tr" ">" ∷ from_to "<li" ">" ∷ [])

-- `/<[^>]+>/g`
abbrev tag : String → Option ℕ
tag String.[] = none
tag (String.◌∷◌ c String.[]) = none
tag (String.◌∷◌ c (String.◌∷◌ d s)) =
    if is_char b'<' c && not (is_char b'>' d) then longer 2 (up_to ">" s) else none

abbrev decoded : String → String
decoded s = replaced (literal "&apos;") "'" (
    replaced (literal "&#39;") "'" (
      replaced (literal "&quot;") "\"" (
        replaced (literal "&gt;") ">" (
          replaced (literal "&lt;") "<"
            (replaced (literal "&amp;") "&" (replaced (literal "&nbsp;") " " s))))))

abbrev onto_first : Char → List String → List String
onto_first c [] = String.◌∷◌ c String.[] ∷ []
onto_first c (line ∷ lines) = String.◌∷◌ c line ∷ lines

-- `split('\n')`
abbrev split_lines : String → List String
split_lines String.[] = String.[] ∷ []
split_lines (String.◌∷◌ c s) =
    let rest = split_lines s in if is_char 10 c then String.[] ∷ rest else onto_first c rest

-- `join('\n')`
abbrev join_lines : List String → String
join_lines [] = String.[]
join_lines (line ∷ []) = line
join_lines (line ∷ next ∷ lines) = String.◌++◌ line (String.◌∷◌ "\n" (join_lines (next ∷ lines)))

-- `replace(/\n{3,}/g, '\n\n')`, after so many newlines
abbrev pub at_most_two : ℕ → String → String
at_most_two n String.[] = String.[]
at_most_two n (String.◌∷◌ c s) =
    let rest = at_most_two (if is_char 10 c then suc n else 0) s in
    if is_char 10 c && leb 2 n then rest else String.◌∷◌ c rest

-- `htmlToSafePlainText`
unfoldable pub html_to_safe_plain_text : String → String
html_to_safe_plain_text html =
    let without_scripts =
      replaced (from_to "<style" "</style>") ""
        (replaced (from_to "<script" "</script>") "" html) in
    let with_newlines =
      replaced block_start "\n"
        (replaced block_end "\n" (replaced line_break "\n" without_scripts)) in
    let stripped = replaced tag "" with_newlines in
    trimmed (at_most_two 0 (join_lines (map trimmed (split_lines (decoded stripped)))))

abbrev pub text_of : Option String → String
text_of none = ""
text_of (some s) = s

abbrev pub bounded_unless_empty : String → String
bounded_unless_empty s = if is_empty s then "" else bound_bytes s

-- `deriveInboundBodyText`
unfoldable pub derive_inbound_body_text : Option String → Option String → String
derive_inbound_body_text plain_text html =
    let trimmed_plain = trimmed (text_of plain_text) in
    if not (is_empty trimmed_plain)
    then bound_bytes trimmed_plain
    else if is_empty (trimmed (text_of html))
    then ""
    else bounded_unless_empty (html_to_safe_plain_text (text_of html))

-- `deriveInboundBodyHtml`
unfoldable pub derive_inbound_body_html : Option String → Option String
derive_inbound_body_html html =
    if is_empty (trimmed (text_of html)) then none else some (bound_bytes (text_of html))
