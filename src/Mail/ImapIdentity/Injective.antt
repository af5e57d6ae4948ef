-- ===== src/Mail/ImapIdentity/Injective.antt =====
-- Two messages of the mailboxes have two encodings.
use crm_nusrv.Base.{
  ◌≡◌, refl, sym, ap, ◌∙◌, String, arith, decimal, decimal_injective, decimal-NoColon, cut,
}
use Prim.Native.Char.{Char, len_utf8}
use Prim.Native.String.len
use Prim.Native.String
use text.Mathlib.TextLemmas.{cons-append, nil-append, append_assoc}
use text.Mathlib.TextPositions.{len_utf8-pos}
use crm_nusrv.Mail.ImapIdentity.{
  ImapIdentityTuple, encode_component, canonical_imap_identity_encoding,
}

len_some : (c : Char) (s : String) → String.len (String.◌∷◌ c s) ≡ 0 → ⊥
len_some c s h = let (k, some) = len_utf8-pos c in absurd (omega (arith, len.cons c s, some, h))

same_length :
    (v w x y : String)
    → String.len v ≡ String.len w
    → String.◌++◌ v x ≡ String.◌++◌ w y
    → (v ≡ w) × (x ≡ y)
same_length String.[] String.[] x y l e = (refl, sym (nil-append x) ∙ e ∙ nil-append y)
same_length String.[] (String.◌∷◌ d w) x y l e = absurd (len_some d w (sym l))
same_length (String.◌∷◌ c v) String.[] x y l e = absurd (len_some c v l)
same_length (String.◌∷◌ c v) (String.◌∷◌ d w) x y l e =
    let e' = sym (cons-append c v x) ∙ e ∙ cons-append d w y in
    let same : c ≡ d = cc in
    let shorter = sym (len.cons c v) ∙ l ∙ len.cons d w in
    let (first, rest) = same_length v w x y (omega (arith, ap len_utf8 same, shorter)) (cc) in
    (cc, rest)

component :
    (v w x y : String)
    → String.◌++◌ (encode_component v) x ≡ String.◌++◌ (encode_component w) y
    → (v ≡ w) × (x ≡ y)
unfolding encode_component
component v w x y e =
    let (lengths, rest) =
      cut _ _ (String.◌++◌ v x) (String.◌++◌ w y) (decimal-NoColon (String.len v))
        (decimal-NoColon (String.len w)) (sym (opened v x) ∙ e ∙ opened w y) in
    same_length v w x y (decimal_injective _ _ lengths) rest
  where
    opened :
        (v x : String)
        → String.◌++◌ (String.◌++◌ (decimal (String.len v)) (String.◌∷◌ ":" v)) x
          ≡ String.◌++◌ (decimal (String.len v)) (String.◌∷◌ ":" (String.◌++◌ v x))
    opened v x =
        append_assoc (decimal (String.len v)) (String.◌∷◌ ":" v) x
        ∙ ap (String.◌++◌ (decimal (String.len v))) (cons-append ":" v x)

-- Messages of different mailboxes, folders, UID validities or UIDs have different encodings, whatever
-- characters the folder's name has.
pub encoding_injective :
    (a b : ImapIdentityTuple)
    → canonical_imap_identity_encoding a ≡ canonical_imap_identity_encoding b
    → a ≡ b
unfolding canonical_imap_identity_encoding
encoding_injective a b e =
    let (same_box, e1) = component a.mail_configuration_id b.mail_configuration_id _ _ e in
    let (same_folder, e2) = component a.canonical_folder b.canonical_folder _ _ e1 in
    let (same_validity, e3) = component (decimal a.uid_validity) (decimal b.uid_validity) _ _ e2 in
    let (same_uid, _) = component (decimal a.uid) (decimal b.uid) "" "" (closed e3) in
    λ i. record {
      mail_configuration_id = same_box i;
      canonical_folder = same_folder i;
      uid_validity = decimal_injective _ _ same_validity i;
      uid = decimal_injective _ _ same_uid i;
    }
  where
    closed : {s t : String} → s ≡ t → String.◌++◌ s "" ≡ String.◌++◌ t ""
    closed h = ap (λ r. String.◌++◌ r "") h
