-- ===== src/Mail/ImapIdentity.antt =====
-- apps/api/src/modules/mail/imap-identity.util.ts: the key by which a message of a mailbox is stored once.
pub mod Injective
use crm_nusrv.Base.{ℕ, ◌+◌, String, Bool, true, false, ◌&&◌, ◌||◌, ◌==◌, decimal, if◌then◌else◌}
use Prim.Native.Char.{Char, code}
use Prim.Native.String

-- The characters that `toUpperCase` makes a letter of `INBOX`, the dotless i among them.
abbrev is_letter : ℕ → Char → Bool
is_letter n c = code c == n || (code c == n + 32 || (n == b'I' && code c == 0x131))

abbrev spells : String → String → Bool
spells String.[] String.[] = true
spells (String.◌∷◌ u word) (String.◌∷◌ c s) = is_letter (code u) c && spells word s
spells _ _ = false

-- `canonicalizeImapFolder`
unfoldable pub canonicalize_imap_folder : String → String
canonicalize_imap_folder raw = if spells "INBOX" raw then "INBOX" else raw

-- `encodeComponent`; `String.len` counts the bytes of the UTF-8.
unfoldable pub encode_component : String → String
encode_component value = String.◌++◌ (decimal (String.len value)) (String.◌∷◌ ":" value)

-- `ImapIdentityTuple`, with the text of the mailbox's id
pub record ImapIdentityTuple : Type 0 where
  pub mail_configuration_id : String
  pub canonical_folder : String
  pub uid_validity : ℕ
  pub uid : ℕ

-- `canonicalImapIdentityEncoding`
unfoldable pub canonical_imap_identity_encoding : ImapIdentityTuple → String
unfolding encode_component
canonical_imap_identity_encoding tuple =
    String.◌++◌ (encode_component tuple.mail_configuration_id) (
      String.◌++◌ (encode_component tuple.canonical_folder) (
        String.◌++◌ (encode_component (decimal tuple.uid_validity))
          (encode_component (decimal tuple.uid))))

-- `computeImapIdentityKey`; the hash in hexadecimal is a parameter.
unfoldable pub compute_imap_identity_key : (String → String) → ImapIdentityTuple → String
compute_imap_identity_key sha256_hex tuple =
    String.◌++◌ "v1:" (sha256_hex (canonical_imap_identity_encoding tuple))
