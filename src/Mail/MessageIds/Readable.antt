-- ===== src/Mail/MessageIds/Readable.antt =====
-- What is read from a header: only Message-IDs, and a Message-ID as it was written.
use crm_nusrv.Base.{
  ℕ, zero, suc, ◌+◌, ◌≤◌, ◌≡◌, refl, sym, ◌∙◌, ap, false, arith, Option, none, some, String,
  trimmed, trim_start, trim_end, after_trimmed, units, take_units, any_char, is_empty, List, [],
  ◌∷◌, All, take, Bool-cases, inl, inr,
}
use Prim.Native.Char.{Char}
use Prim.Native.String
use text.Mathlib.TextLemmas.{cons-append, nil-append, append-nil, append_assoc}
use crm_nusrv.Mail.MessageIds.{
  contents, is_forbidden, max_header_scan_length, max_tokens_per_header, bracketed, collapse,
  collapsed, is_valid_msg_id_content, normalize_single_message_id, normalized_all, tokens_of,
  parse_message_id_tokens, parse_primary_message_id,
}
use crm_nusrv.Mail.Outbound.Materialize.{generate_stable_message_id, after_at, domain_of}
use crm_nusrv.Mail.MessageIds.Content.{NoAt, IsContent, is_valid_iff, units-append, any_char-append}

-- A Message-ID: a well-formed content between one pair of angle brackets.
pub record IsMessageId (token : String) : Type 0 where
  pub inner : String
  pub content : IsContent inner
  pub wrapped : token ≡ bracketed inner

abbrev IsClean : String → Type 0
IsClean s = any_char is_forbidden s ≡ false

collapse-append :
    (s t : String) → IsClean s → collapse false (String.◌++◌ s t) ≡ String.◌++◌ s (collapse false t)
collapse-append String.[] t h = rw (nil-append t) (rw (nil-append (collapse false t)) refl)
collapse-append (String.◌∷◌ c s) t h =
    rw (cons-append c s t) (rw cons-append (ground (arith, collapse-append s t)))

trim_start-clean : (s : String) → IsClean s → trim_start s ≡ s
trim_start-clean String.[] h = refl
trim_start-clean (String.◌∷◌ c s) h = ground arith

trim_end-clean : (s : String) → IsClean s → trim_end s ≡ s
trim_end-clean String.[] h = refl
trim_end-clean (String.◌∷◌ c String.[]) h = ground arith
trim_end-clean (String.◌∷◌ c (String.◌∷◌ d s)) h =
    ap (after_trimmed c) (trim_end-clean (String.◌∷◌ d s) (ground arith))

trimmed-clean : (s : String) → IsClean s → trimmed s ≡ s
trimmed-clean s h = ap trim_end (trim_start-clean s h) ∙ trim_end-clean s h

closed_some : (s : String) → (d : Char) × (r : String) × (String.◌++◌ s ">" ≡ String.◌∷◌ d r)
closed_some String.[] = (">", "", nil-append ">")
closed_some (String.◌∷◌ c s) = (c, String.◌++◌ s ">", cons-append c s ">")

trim_end-closed : (s : String) → trim_end (String.◌++◌ s ">") ≡ String.◌++◌ s ">"
trim_end-closed String.[] = rw nil-append
trim_end-closed (String.◌∷◌ c s) =
    let (d, r, e) = closed_some s in rw cons-append (rw (trim_end-closed s) (rw e refl))

take_units-all : (n : ℕ) (s : String) → units s ≤ n → take_units n s ≡ s
take_units-all n String.[] h = refl
take_units-all zero (String.◌∷◌ c s) h = ground arith
take_units-all (suc zero) (String.◌∷◌ c String.[]) h = ground arith
take_units-all (suc zero) (String.◌∷◌ c (String.◌∷◌ d s)) h = ground arith
take_units-all (suc (suc n)) (String.◌∷◌ c s) h =
    ground (arith, take_units-all n s, take_units-all (suc n) s)

appended_char :
    (read : String) (c : Char) (s : String)
    → String.◌++◌ (String.◌++◌ read (String.◌∷◌ c String.[])) s ≡ String.◌++◌ read (String.◌∷◌ c s)
appended_char read c s = rw append_assoc (rw cons-append (rw nil-append refl))

contents-clean :
    (inner read rest : String)
    → IsClean inner
    → contents (some read) (String.◌++◌ inner (String.◌∷◌ ">" rest))
      ≡ String.◌++◌ read inner ∷ contents none rest
contents-clean String.[] read rest h = rw nil-append (rw append-nil refl)
contents-clean (String.◌∷◌ c s) read rest h = rw cons-append (
    ground (
      arith,
      contents-clean s (String.◌++◌ read (String.◌∷◌ c String.[])) rest,
      appended_char read c s,
    ))

trimmed-bracketed : (inner : String) → trimmed (bracketed inner) ≡ bracketed inner
trimmed-bracketed inner =
    let (d, r, e) = closed_some inner in ap (after_trimmed "<") (trim_end-closed inner) ∙ rw e refl

collapsed-token : (inner : String) → IsContent inner → collapsed (bracketed inner) ≡ bracketed inner
collapsed-token inner h =
    let spaced = collapse-append inner ">" h.clean in
    ap (λ s. take_units max_header_scan_length (trimmed (String.◌∷◌ "<" s))) spaced
    ∙ ap (take_units max_header_scan_length) (trimmed-bracketed inner)
    ∙ take_units-all max_header_scan_length (bracketed inner)
        (omega (arith, units-append inner ">", h.short))

contents-token : (inner : String) → IsContent inner → contents none (bracketed inner) ≡ inner ∷ []
contents-token inner h =
    contents-clean inner "" String.[] h.clean ∙ ap (λ i. i ∷ []) (nil-append inner)

normalized-content :
    (inner : String) → IsContent inner → normalize_single_message_id inner ≡ some (bracketed inner)
unfolding normalize_single_message_id
normalized-content inner h = rw ((is_valid_iff inner).1 h)

-- A header that holds one Message-ID gives it.
pub parse_message_id_tokens_lem :
    (inner : String)
    → IsContent inner
    → parse_message_id_tokens (some (bracketed inner)) ≡ bracketed inner ∷ []
unfolding parse_message_id_tokens
parse_message_id_tokens_lem inner h = rw (collapsed-token inner h) (
    rw (contents-token inner h)
      (rw (trimmed-clean inner h.clean) (rw (normalized-content inner h))))

normalized_all-IsMessageId : (tokens : List String) → All IsMessageId (normalized_all tokens)
unfolding normalize_single_message_id
normalized_all-IsMessageId [] = tt
normalized_all-IsMessageId (inner ∷ tokens) =
    elim (Bool-cases (is_valid_msg_id_content (trimmed inner))) [
      | inl valid ↦ rw valid (
        record { inner = trimmed inner; content = (is_valid_iff _).0 valid; wrapped = refl },
        normalized_all-IsMessageId tokens,
      )
      | inr other ↦ rw other (normalized_all-IsMessageId tokens)
    ]

tokens_of-IsMessageId :
    (header : String) (inner : List String) → All IsMessageId (tokens_of header inner)
unfolding normalize_single_message_id
tokens_of-IsMessageId header [] = elim (Bool-cases (is_valid_msg_id_content header)) [
  | inl valid ↦
      rw valid (record { inner = header; content = (is_valid_iff _).0 valid; wrapped = refl }, tt)
  | inr other ↦ rw other tt
]
tokens_of-IsMessageId header (inner ∷ more) =
    normalized_all-IsMessageId (take max_tokens_per_header (inner ∷ more))

-- Whatever a header holds, only Message-IDs are read from it: text with one `@`, text on both
-- sides of it, no white space, no control character and no further bracket, between one pair of
-- brackets, in at most 500 characters.
pub parse_message_id_tokens-IsMessageId :
    (header : Option String) → All IsMessageId (parse_message_id_tokens header)
unfolding parse_message_id_tokens
parse_message_id_tokens-IsMessageId none = tt
parse_message_id_tokens-IsMessageId (some raw) = elim (Bool-cases (is_empty (collapsed raw))) [
  | inl nothing ↦ rw nothing tt
  | inr more ↦ rw more (tokens_of-IsMessageId (collapsed raw) (contents none (collapsed raw)))
]

-- The sender's part after its first `@`, or `localhost`
abbrev pub domain_of_address : String → String
domain_of_address from_address = domain_of (after_at from_address)

-- Text that may stand on one side of the `@`.
pub record IsPart (part : String) : Type 0 where
  pub clean : any_char is_forbidden part ≡ false
  pub no_at : NoAt part
  pub some : is_empty part ≡ false

abbrev inner_of : String → String → String
inner_of uuid domain = String.◌++◌ uuid (String.◌∷◌ "@" domain)

generated :
    (uuid from_address : String)
    → generate_stable_message_id uuid from_address
      ≡ bracketed (inner_of uuid (domain_of_address from_address))
unfolding generate_stable_message_id
generated uuid from_address =
    let domain = domain_of_address from_address in
    let at_domain =
      cons-append "@" "" (String.◌++◌ domain ">")
      ∙ ap (String.◌∷◌ "@") (nil-append (String.◌++◌ domain ">"))
      ∙ sym (cons-append "@" domain ">") in
    cons-append "<" "" _
    ∙ ap (String.◌∷◌ "<")
        (nil-append _ ∙ ap (String.◌++◌ uuid) at_domain ∙ sym (append_assoc uuid _ ">"))

generated-IsContent :
    (uuid domain : String)
    → IsPart uuid
    → IsPart domain
    → units uuid + units domain ≤ 497
    → IsContent (inner_of uuid domain)
generated-IsContent uuid domain u d h = record {
  local = uuid;
  domain = domain;
  parts = refl;
  local_some = u.some;
  domain_some = d.some;
  local_at = u.no_at;
  domain_at = d.no_at;
  clean =
      any_char-append is_forbidden uuid (String.◌∷◌ "@" domain) ∙ ground (arith, u.clean, d.clean);
  short = omega (arith, units-append uuid (String.◌∷◌ "@" domain));
}

-- The Message-ID that a message is sent under is read back, whole and unchanged, from the
-- In-Reply-To header of a reply that quotes it, if the UUID and the sender's domain are not empty
-- and have no `@`, no white space, no control character and no bracket, and it fits its column.
pub parse-generate :
    (uuid from_address : String)
    → IsPart uuid
    → IsPart (domain_of_address from_address)
    → units uuid + units (domain_of_address from_address) ≤ 497
    → parse_primary_message_id (some (generate_stable_message_id uuid from_address))
      ≡ some (generate_stable_message_id uuid from_address)
unfolding parse_primary_message_id
parse-generate uuid from_address u d h =
    rw (generated uuid from_address)
      (rw (parse_message_id_tokens_lem _ (generated-IsContent uuid _ u d h)) refl)
