-- ===== src/Mail/MessageIds.antt =====
-- apps/api/src/modules/mail/mail-message-correlation.util.ts: the Message-IDs in a header.
pub mod Content
pub mod Readable
use crm_nusrv.Base.{
  ℕ, zero, suc, ◌+◌, ◌-◌, Bool, true, false, not, ◌&&◌, ◌||◌, Option, none, some, List, [], ◌∷◌,
  String, leb, ltb, ◌==◌, take, is_space, trimmed, units, units_of, take_units, any_char, is_empty,
  is_char, if◌then◌else◌,
}
use Prim.Native.Char.{Char, code}
use Prim.Native.String

abbrev pub max_message_id_length : ℕ
max_message_id_length = 500

abbrev pub max_header_scan_length : ℕ
max_header_scan_length = 20000

abbrev pub max_tokens_per_header : ℕ
max_tokens_per_header = 200

-- `indexOf('@')` and `lastIndexOf('@')`, from the position `i` on
abbrev pub index_of_at : ℕ → String → Option ℕ
index_of_at i String.[] = none
index_of_at i (String.◌∷◌ c s) = if is_char b'@' c then some i else index_of_at (i + units_of c) s

abbrev or_here : Option ℕ → Bool → ℕ → Option ℕ
or_here (some k) b i = some k
or_here none true i = some i
or_here none false i = none

abbrev pub last_index_of_at : ℕ → String → Option ℕ
last_index_of_at i String.[] = none
last_index_of_at i (String.◌∷◌ c s) =
    or_here (last_index_of_at (i + units_of c) s) (is_char b'@' c) i

-- `/[\x00-\x1f\x7f]/`, `/\s/`, `<` and `>`
abbrev pub is_forbidden : Char → Bool
is_forbidden c =
    leb (code c) 0x1f
    || (is_char 0x7f c || (is_space (code c) || (is_char b'<' c || is_char b'>' c)))

abbrev pub same_index : Option ℕ → Option ℕ → Bool
same_index (some a) (some b) = a == b
same_index none none = true
same_index _ _ = false

-- The tests on `atIndex`.
abbrev pub is_inside : Option ℕ → Option ℕ → ℕ → Bool
is_inside none last length = false
is_inside (some k) last length = not (k == 0) && (same_index (some k) last && not (suc k == length))

unfoldable pub is_valid_msg_id_content : String → Bool
is_valid_msg_id_content inner =
    not (is_empty inner)
    && (leb (units inner) (max_message_id_length - 2)
        && (not (any_char is_forbidden inner)
            && is_inside (index_of_at 0 inner) (last_index_of_at 0 inner) (units inner)))

abbrev pub bracketed : String → String
bracketed inner = String.◌∷◌ "<" (String.◌++◌ inner ">")

unfoldable pub normalize_single_message_id : String → Option String
normalize_single_message_id inner =
    if is_valid_msg_id_content inner then some (bracketed inner) else none

-- `replace(/\s+/g, ' ')`: whether the last character was white space, and the rest of the text.
abbrev pub collapse : Bool → String → String
collapse after String.[] = String.[]
collapse true (String.◌∷◌ c s) =
    if is_space (code c) then collapse true s else String.◌∷◌ c (collapse false s)
collapse false (String.◌∷◌ c s) =
    if is_space (code c) then String.◌∷◌ " " (collapse true s) else String.◌∷◌ c (collapse false s)

-- The contents of the matches of `/<[^<>]*>/g`, with what was read since the last `<`.
abbrev pub contents : Option String → String → List String
contents open_text String.[] = []
contents none (String.◌∷◌ c s) = contents (if is_char b'<' c then some "" else none) s
contents (some read) (String.◌∷◌ c s) = elim (is_char b'>' c) [
  | true ↦ read ∷ contents none s
  | false ↦
      contents (some (if is_char b'<' c then "" else String.◌++◌ read (String.◌∷◌ c String.[]))) s
]

abbrev pub kept : Option String → List String → List String
kept none rest = rest
kept (some token) rest = token ∷ rest

-- The loop over the bracketed tokens.
abbrev pub normalized_all : List String → List String
normalized_all [] = []
normalized_all (inner ∷ tokens) =
    kept (normalize_single_message_id (trimmed inner)) (normalized_all tokens)

-- A character that `slice` would cut in two is left out: half of it is no part of any token.
abbrev pub collapsed : String → String
collapsed raw = take_units max_header_scan_length (trimmed (collapse false raw))

abbrev pub tokens_of : String → List String → List String
tokens_of header [] = kept (normalize_single_message_id header) []
tokens_of header (inner ∷ more) = normalized_all (take max_tokens_per_header (inner ∷ more))

-- `parseMessageIdTokens`
unfoldable pub parse_message_id_tokens : Option String → List String
parse_message_id_tokens none = []
parse_message_id_tokens (some raw) =
    let header = collapsed raw in
    if is_empty header then [] else tokens_of header (contents none header)

abbrev pub first_token : List String → Option String
first_token [] = none
first_token (token ∷ _) = some token

-- `parsePrimaryMessageId`
unfoldable pub parse_primary_message_id : Option String → Option String
unfolding parse_message_id_tokens
parse_primary_message_id raw = first_token (parse_message_id_tokens raw)

abbrev pub joined_to : String → String → String
joined_to result token =
    if is_empty result then token else String.◌++◌ result (String.◌∷◌ " " token)

-- The loop of `buildReferencesStorageValue`; `String.len` counts the bytes of the UTF-8.
unfoldable pub store_references : ℕ → String → List String → String
store_references max_bytes result [] = result
store_references max_bytes result (token ∷ tokens) =
    let candidate = joined_to result token in
    let rest = store_references max_bytes candidate tokens in
    if ltb max_bytes (String.len candidate) then result else rest

abbrev or_undefined : String → Option String
or_undefined s = if is_empty s then none else some s

-- `buildReferencesStorageValue`
unfoldable pub build_references_storage_value : List String → ℕ → Option String
unfolding store_references
build_references_storage_value tokens max_bytes =
    or_undefined (store_references max_bytes "" tokens)
