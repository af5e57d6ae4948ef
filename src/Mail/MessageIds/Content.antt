-- ===== src/Mail/MessageIds/Content.antt =====
-- What the tests on the content of a Message-ID accept.
use crm_nusrv.Base.{
  ℕ, suc, ◌+◌, ◌≤◌, ◌≡◌, refl, sym, ◌∙◌, ap, ◌↔◌, ◌≢◌, inl, inr, Bool, true, false, ◌||◌, arith,
  none, some, String, units, units_of, any_char, is_empty, is_char, Bool-cases, Option-cases,
}
use Prim.Native.Char.{Char}
use Prim.Native.String
use text.Mathlib.TextLemmas.{cons-append, nil-append}
use text.Mathlib.TextEquality.{Char-path}
use crm_nusrv.Mail.MessageIds.{
  is_forbidden, index_of_at, last_index_of_at, is_valid_msg_id_content, is_inside,
}

pub any_char-append :
    (p : Char → Bool) (s t : String) → any_char p (String.◌++◌ s t) ≡ (any_char p s || any_char p t)
any_char-append p String.[] t = rw nil-append
any_char-append p (String.◌∷◌ c s) t = rw cons-append (ground (arith, any_char-append p s t))

pub units-append : (s t : String) → units (String.◌++◌ s t) ≡ units s + units t
units-append String.[] t = rw nil-append (omega arith)
units-append (String.◌∷◌ c s) t = rw cons-append (omega (arith, units-append s t))

-- A text without `@`
abbrev pub NoAt : String → Type 0
NoAt s = any_char (is_char b'@') s ≡ false

pub index_of_at_lem :
    (i : ℕ) (l d : String)
    → NoAt l
    → index_of_at i (String.◌++◌ l (String.◌∷◌ "@" d)) ≡ some (i + units l)
index_of_at_lem i String.[] d h = rw nil-append (ground arith)
index_of_at_lem i (String.◌∷◌ c s) d h =
    rw cons-append (ground (arith, index_of_at_lem (i + units_of c) s d))

last_index-none : (i : ℕ) (d : String) → NoAt d → last_index_of_at i d ≡ none
last_index-none i String.[] h = refl
last_index-none i (String.◌∷◌ c s) h = ground (arith, last_index-none (i + units_of c) s)

pub last_index_lem :
    (i : ℕ) (l d : String)
    → NoAt d
    → last_index_of_at i (String.◌++◌ l (String.◌∷◌ "@" d)) ≡ some (i + units l)
last_index_lem i String.[] d h = rw nil-append (ground (arith, last_index-none (i + 1) d))
last_index_lem i (String.◌∷◌ c s) d h =
    rw cons-append (ground (arith, last_index_lem (i + units_of c) s d))

-- One `@`, with text on both sides; no character that is refused; and no longer than the column.
pub record IsContent (inner : String) : Type 0 where
  pub local : String
  pub domain : String
  pub parts : inner ≡ String.◌++◌ local (String.◌∷◌ "@" domain)
  pub local_some : is_empty local ≡ false
  pub domain_some : is_empty domain ≡ false
  pub local_at : NoAt local
  pub domain_at : NoAt domain
  pub clean : any_char is_forbidden inner ≡ false
  pub short : units inner ≤ 498

units_some : (s : String) → is_empty s ≡ false → 1 ≤ units s
units_some String.[] h = absurd (cc)
units_some (String.◌∷◌ c s) h = ground arith

some_of_units : (s : String) → units s ≢ 0 → is_empty s ≡ false
some_of_units String.[] h = absurd (h refl)
some_of_units (String.◌∷◌ c s) h = refl

-- Where the first `@` is.
first_at :
    (i k : ℕ) (s : String)
    → index_of_at i s ≡ some k
    → (l : String) × (d : String) × (s ≡ String.◌++◌ l (String.◌∷◌ "@" d))
      × NoAt l
      × (k ≡ i + units l)
first_at i k String.[] h = absurd (cc)
first_at i k (String.◌∷◌ c s) h = elim (Bool-cases (is_char b'@' c)) [
  | inl here ↦ (
    String.[],
    s,
    rw nil-append (ap (λ a. String.◌∷◌ a s) (Char-path c "@" (ground arith))),
    refl,
    ground arith,
  )
  | inr later ↦
      let (l, d, e, none_there, at) = first_at (i + units_of c) k s (ground arith) in
      (String.◌∷◌ c l, d, rw cons-append (ap (String.◌∷◌ c) e), ground arith, ground arith)
]

-- A last `@` that is not past `i` lies not in the text from `i` on.
last_at_later : (i k : ℕ) (s : String) → last_index_of_at i s ≡ some k → i ≤ k
last_at_later i k String.[] h = absurd (cc)
last_at_later i k (String.◌∷◌ c s) h = elim (Option-cases (last_index_of_at (i + units_of c) s)) [
  | inl nowhere ↦ ground (arith, nowhere)
  | inr (k', there) ↦ ground (arith, there, last_at_later (i + units_of c) k' s there)
]

last_at_none : (i : ℕ) (s : String) → last_index_of_at i s ≡ none → NoAt s
last_at_none i String.[] h = refl
last_at_none i (String.◌∷◌ c s) h = elim (Option-cases (last_index_of_at (i + units_of c) s)) [
  | inl nowhere ↦ ground (arith, nowhere, last_at_none (i + units_of c) s nowhere)
  | inr (k', there) ↦ absurd (ground (arith, there))
]

last_at :
    (i : ℕ) (l d : String)
    → last_index_of_at i (String.◌++◌ l (String.◌∷◌ "@" d)) ≡ some (i + units l)
    → NoAt d
last_at i String.[] d h = elim (Option-cases (last_index_of_at (i + 1) d)) [
  | inl nowhere ↦ last_at_none (i + 1) d nowhere
  | inr (k', there) ↦
      let h' = rw nil-append at h in
      absurd (ground (arith, h', there, last_at_later (i + 1) k' d there))
]
last_at i (String.◌∷◌ c l) d h =
    let h' = rw cons-append at h in
    elim (Option-cases (last_index_of_at (i + units_of c) (String.◌++◌ l (String.◌∷◌ "@" d)))) [
      | inl nowhere ↦
          let none_there =
            last_at_none (i + units_of c) (String.◌++◌ l (String.◌∷◌ "@" d)) nowhere in
          absurd (ground (arith, none_there, any_char-append (is_char b'@') l (String.◌∷◌ "@" d)))
      | inr (k', there) ↦ last_at (i + units_of c) l d (ground (arith, h', there))
    ]

is_inside_parts :
    (inner : String) (k : ℕ)
    → is_inside (some k) (last_index_of_at 0 inner) (units inner) ≡ true
    → (k ≢ 0) × (last_index_of_at 0 inner ≡ some k) × (suc k ≢ units inner)
is_inside_parts inner k h = elim (Option-cases (last_index_of_at 0 inner)) [
  | inl nowhere ↦ absurd (ground (arith, nowhere))
  | inr (k', there) ↦ (
    λ e. absurd (ground (arith, there)),
    ground (arith, there),
    λ e. absurd (ground (arith, there)),
  )
]

-- The tests accept exactly the contents of that form.
pub is_valid_iff : (inner : String) → (is_valid_msg_id_content inner ≡ true) ↔ IsContent inner
unfolding is_valid_msg_id_content
is_valid_iff inner = (to, from)
  where
    to : is_valid_msg_id_content inner ≡ true → IsContent inner
    to h = elim (Option-cases (index_of_at 0 inner)) [
      | inl nowhere ↦ absurd (ground (arith, nowhere))
      | inr (k, first) ↦
          let (l, d, e, local_at, at) = first_at 0 k inner first in
          let (start, last, end) = is_inside_parts inner k (ground (arith, first)) in
          let longer = ap units e ∙ units-append l (String.◌∷◌ "@" d) in
          record {
            local = l;
            domain = d;
            parts = e;
            local_some = some_of_units l (λ z. start (omega (arith, at)));
            domain_some = some_of_units d (λ z. end (omega (arith, at, longer)));
            local_at = local_at;
            domain_at = last_at 0 l d (ap (last_index_of_at 0) (sym e) ∙ last ∙ ap some at);
            clean = ground arith;
            short = ground arith;
          }
    ]

    from : IsContent inner → is_valid_msg_id_content inner ≡ true
    from h =
        let longer = ap units h.parts ∙ units-append h.local (String.◌∷◌ "@" h.domain) in
        ground (
          arith,
          longer,
          units_some h.local h.local_some,
          units_some h.domain h.domain_some,
          ap (index_of_at 0) h.parts ∙ index_of_at_lem 0 h.local h.domain h.local_at,
          ap (last_index_of_at 0) h.parts ∙ last_index_lem 0 h.local h.domain h.domain_at,
          some_of_units inner,
        )
