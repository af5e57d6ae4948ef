-- ===== src/Base/Decimal.antt =====
-- The decimal print of a number, which tells the number.
use Prim.Native.Nat.{ℕ, zero, suc, ◌+◌, ◌-◌, ◌*◌, ◌/◌, ◌%◌, ◌<◌}
use Prim.Native.Char.{Char, code}
use Prim.Native.String.{String}
use Prim.Native.String
use mathlib.Core.Path.{◌≡◌, refl, sym, ap, ◌∙◌}
use mathlib.Core.Logic.{inl, inr}
use mathlib.Core.Bool.{false}
use native.Mathlib.Omega.{arith}
use text.Mathlib.TextLemmas.{cons-append, nil-append}
use crm_nusrv.Base.Strings.{any_char, is_char}
use crm_nusrv.Base.Tests.{ltb, if◌then◌else◌, Bool-cases}

abbrev digit : ℕ → Char
digit zero = "0"
digit (suc zero) = "1"
digit (suc (suc zero)) = "2"
digit (suc (suc (suc zero))) = "3"
digit (suc (suc (suc (suc zero)))) = "4"
digit (suc (suc (suc (suc (suc zero))))) = "5"
digit (suc (suc (suc (suc (suc (suc zero)))))) = "6"
digit (suc (suc (suc (suc (suc (suc (suc zero))))))) = "7"
digit (suc (suc (suc (suc (suc (suc (suc (suc zero)))))))) = "8"
digit _ = "9"

digit-code : (d : ℕ) → d < 10 → code (digit d) ≡ 48 + d
digit-code zero h = refl
digit-code (suc zero) h = refl
digit-code (suc (suc zero)) h = refl
digit-code (suc (suc (suc zero))) h = refl
digit-code (suc (suc (suc (suc zero)))) h = refl
digit-code (suc (suc (suc (suc (suc zero))))) h = refl
digit-code (suc (suc (suc (suc (suc (suc zero)))))) h = refl
digit-code (suc (suc (suc (suc (suc (suc (suc zero))))))) h = refl
digit-code (suc (suc (suc (suc (suc (suc (suc (suc zero)))))))) h = refl
digit-code (suc (suc (suc (suc (suc (suc (suc (suc (suc d))))))))) h = omega arith

-- The digits of `n`, on fuel, before those of `out`.
unfoldable pub digits : ℕ → ℕ → String → String
digits zero n out = out
digits (suc fuel) n out =
    let rest = digits fuel (n / 10) (String.◌∷◌ (digit (n % 10)) out) in
    let last = String.◌∷◌ (digit n) out in if ltb n 10 then last else rest

-- `String(n)`; `n` has at most `n + 1` digits.
unfoldable pub decimal : ℕ → String
decimal n = digits (suc n) n ""

-- The number that a text of digits stands for, read after the number `n`.
abbrev value : ℕ → String → ℕ
value n String.[] = n
value n (String.◌∷◌ c s) = value (10 * n + (code c - 48)) s

value-digits : (fuel n : ℕ) (out : String) → n < fuel → value 0 (digits fuel n out) ≡ value n out
unfolding digits
value-digits zero n out h = absurd (omega arith)
value-digits (suc fuel) n out h = elim (Bool-cases (ltb n 10)) [
  | inl small ↦ rw small (ap (λ k. value k out) (omega (arith, digit-code n (ground arith))))
  | inr large ↦ rw large (
      value-digits fuel (n / 10) _ (ground arith)
      ∙ ap (λ k. value k out) (omega (arith, digit-code (n % 10) (omega arith))))
]

-- A number is told by its print.
pub decimal_injective : (a b : ℕ) → decimal a ≡ decimal b → a ≡ b
unfolding decimal
decimal_injective a b h =
    sym (value-digits (suc a) a "" (omega arith))
    ∙ ap (value 0) h
    ∙ value-digits (suc b) b "" (omega arith)

abbrev pub NoColon : String → Type 0
NoColon s = any_char (is_char b':') s ≡ false

digits-NoColon : (fuel n : ℕ) (out : String) → NoColon out → NoColon (digits fuel n out)
unfolding digits
digits-NoColon zero n out h = h
digits-NoColon (suc fuel) n out h = elim (Bool-cases (ltb n 10)) [
  | inl small ↦ rw small (ground (arith, digit-code n (ground arith)))
  | inr large ↦
      rw large (digits-NoColon fuel (n / 10) _ (ground (arith, digit-code (n % 10) (omega arith))))
]

pub cut :
    (s t x y : String)
    → NoColon s
    → NoColon t
    → String.◌++◌ s (String.◌∷◌ ":" x) ≡ String.◌++◌ t (String.◌∷◌ ":" y)
    → (s ≡ t) × (x ≡ y)
cut String.[] String.[] x y hs ht e =
    (refl, cc (nil-append (String.◌∷◌ ":" x), nil-append (String.◌∷◌ ":" y)))
cut String.[] (String.◌∷◌ d t) x y hs ht e =
    let e' = sym (nil-append (String.◌∷◌ ":" x)) ∙ e ∙ cons-append d t (String.◌∷◌ ":" y) in
    let same : d ≡ ":" = cc in absurd (ground (arith, ap code same))
cut (String.◌∷◌ c s) String.[] x y hs ht e =
    let e' = sym (nil-append (String.◌∷◌ ":" y)) ∙ sym e ∙ cons-append c s (String.◌∷◌ ":" x) in
    let same : c ≡ ":" = cc in absurd (ground (arith, ap code same))
cut (String.◌∷◌ c s) (String.◌∷◌ d t) x y hs ht e =
    let e' = sym (cons-append c s (String.◌∷◌ ":" x)) ∙ e ∙ cons-append d t (String.◌∷◌ ":" y) in
    let same : c ≡ d = cc in
    let (first, rest) = cut s t x y (ground arith) (ground arith) (cc) in (cc, rest)

pub decimal-NoColon : (n : ℕ) → NoColon (decimal n)
unfolding decimal
decimal-NoColon n = digits-NoColon (suc n) n "" refl
