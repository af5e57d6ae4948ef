-- ===== src/Base/Strings.antt =====
-- Operations on whole strings, a character at a time.
use Prim.Native.Nat.{ℕ, zero, suc, ◌+◌}
use Prim.Native.Char.{Char, code}
use Prim.Native.String.{String}
use mathlib.Core.Bool.{Bool, true, false, ◌||◌}
use crm_nusrv.Base.Tests.{leb, ◌==◌, if◌then◌else◌}
use crm_nusrv.Base.CodeUnits.{is_space}

abbrev translate : String → String → Char → Char
translate (String.◌∷◌ a from) (String.◌∷◌ b to) c =
    if code a == code c then b else translate from to c
translate _ _ c = c

-- `toLowerCase`, on a letter of ASCII
abbrev pub lower_char : Char → Char
lower_char c = translate "ABCDEFGHIJKLMNOPQRSTUVWXYZ" "abcdefghijklmnopqrstuvwxyz" c

abbrev pub lower : String → String
lower String.[] = String.[]
lower (String.◌∷◌ c s) = String.◌∷◌ (lower_char c) (lower s)

abbrev pub trim_start : String → String
trim_start String.[] = String.[]
trim_start (String.◌∷◌ c s) =
    let rest = trim_start s in if is_space (code c) then rest else String.◌∷◌ c s

abbrev pub after_trimmed : Char → String → String
after_trimmed c String.[] = if is_space (code c) then String.[] else String.◌∷◌ c String.[]
after_trimmed c (String.◌∷◌ d s) = String.◌∷◌ c (String.◌∷◌ d s)

abbrev pub trim_end : String → String
trim_end String.[] = String.[]
trim_end (String.◌∷◌ c s) = after_trimmed c (trim_end s)

-- `String.prototype.trim`
abbrev pub trimmed : String → String
trimmed s = trim_end (trim_start s)

-- The UTF-16 code units of a character: `length` and `slice` count these.
abbrev pub units_of : Char → ℕ
units_of c = if leb 0x10000 (code c) then 2 else 1

abbrev pub units : String → ℕ
units String.[] = 0
units (String.◌∷◌ c s) = units_of c + units s

-- The longest prefix of at most `n` code units.
abbrev pub take_units : ℕ → String → String
take_units n String.[] = String.[]
take_units zero (String.◌∷◌ c s) = String.[]
take_units (suc zero) (String.◌∷◌ c s) =
    if leb 0x10000 (code c) then String.[] else String.◌∷◌ c String.[]
take_units (suc (suc n)) (String.◌∷◌ c s) =
    if leb 0x10000 (code c)
    then String.◌∷◌ c (take_units n s)
    else String.◌∷◌ c (take_units (suc n) s)

-- The first `n` characters: `Array.from(value).slice(0, n).join('')`
abbrev pub take_chars : ℕ → String → String
take_chars zero s = String.[]
take_chars (suc n) String.[] = String.[]
take_chars (suc n) (String.◌∷◌ c s) = String.◌∷◌ c (take_chars n s)

abbrev pub any_char : (Char → Bool) → String → Bool
any_char p String.[] = false
any_char p (String.◌∷◌ c s) = p c || any_char p s

abbrev pub is_empty : String → Bool
is_empty String.[] = true
is_empty (String.◌∷◌ _ _) = false

abbrev pub is_char : ℕ → Char → Bool
is_char n c = code c == n
