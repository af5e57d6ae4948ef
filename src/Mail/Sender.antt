-- ===== src/Mail/Sender.antt =====
-- apps/api/src/modules/mail/mail-inbound-sender-resolution.service.ts, with mail-address.util.ts: which
-- customer an inbound message is from.
use crm_nusrv.Base.{
  ℕ, Bool, false, not, ◌&&◌, Option, none, some, String, List, [], ◌∷◌, Table, find_first, filter,
  str_eq, ◌==◌, lower, trimmed, is_some, if◌then◌else◌,
}
use crm_nusrv.Base.Results.{Result, ok, find_or_throw, ◌>>=◌}
use crm_nusrv.Store.{Db}
use crm_nusrv.Store.Enums.{CustomerStatus}
use crm_nusrv.Store.Rows.{EmailAddress, Customer}
use crm_nusrv.Mail.Recipient.{is_of_customer}

unfoldable pub normalize_email_address : String → String
normalize_email_address value = lower (trimmed value)

pub data SenderSource : Type 0 where
  normalized_channel legacy_scalar_fallback : SenderSource

pub data SenderResolution : Type 0 where
  unique : ℕ → CustomerStatus → SenderSource → SenderResolution
  ambiguous unattributed : SenderResolution

abbrev pub is_channel : String → EmailAddress → Bool
is_channel email a = str_eq a.email email && a.active

abbrev pub customers_of : (EmailAddress → Bool) → Table EmailAddress → List ℕ
customers_of p [] = []
customers_of p ((_, a) ∷ t) =
    let rest = customers_of p t in if p a then a.customer_id ∷ rest else rest

-- `[...new Set(ids)]`: each once, where it first stands.
unfoldable pub distinct : List ℕ → List ℕ
distinct [] = []
distinct (k ∷ l) = k ∷ filter (λ j. not (j == k)) (distinct l)

abbrev has_primary_email : String → Option String → Bool
has_primary_email email none = false
has_primary_email email (some e) = str_eq e email

-- A customer with the address as its scalar, and no row of addresses at all.
abbrev pub is_legacy : String → Table EmailAddress → ℕ × Customer → Bool
is_legacy email addresses (k, c) =
    has_primary_email email c.primary_email
    && not (is_some (find_first (is_of_customer k) addresses))

-- `finalize`
abbrev pub finalize : ℕ → SenderSource → Db → Result SenderResolution
finalize customer_id source db = do
  customer ← find_or_throw customer_id db.customers
  ok (unique customer_id customer.status source)

abbrev pub only_legacy : List (ℕ × Customer) → SenderResolution
only_legacy [] = unattributed
only_legacy ((k, c) ∷ []) = unique k c.status legacy_scalar_fallback
only_legacy (_ ∷ _ ∷ _) = ambiguous

abbrev pub by_channel : List ℕ → List (ℕ × Customer) → Db → Result SenderResolution
by_channel [] candidates db = ok (only_legacy candidates)
by_channel (k ∷ []) candidates db = finalize k normalized_channel db
by_channel (_ ∷ _ ∷ _) candidates db = ok ambiguous

-- `resolveSenderCustomer`
unfoldable pub resolve_sender_customer : String → Db → Result SenderResolution
unfolding normalize_email_address distinct
resolve_sender_customer from_address db =
    let email = normalize_email_address from_address in
    by_channel (distinct (customers_of (is_channel email) db.email_addresses))
      (filter (is_legacy email db.email_addresses) db.customers) db
