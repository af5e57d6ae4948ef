-- ===== src/Mail/Recipient.antt =====
-- `resolvePrimaryRecipient` of apps/api/src/modules/customers/customer-email-resolution.service.ts.
-- The rows of `email_addresses` stand in the order of their creation.
pub mod Current
use crm_nusrv.Base.{
  ℕ, Bool, true, false, ◌&&◌, Option, none, some, String, Table, find_first, find, str_eq, ◌==◌,
  if◌then◌else◌,
}
use crm_nusrv.Store.{Db}
use crm_nusrv.Store.Rows.{EmailAddress, Customer}

pub data Source : Type 0 where
  normalized_primary legacy_scalar_fallback : Source

pub record ResolvedRecipient : Type 0 where
  pub email : String
  pub source : Source

abbrev pub is_active_primary : ℕ → EmailAddress → Bool
is_active_primary customer_id a = a.customer_id == customer_id && (a.primary && a.active)

abbrev pub is_of_customer : ℕ → EmailAddress → Bool
is_of_customer customer_id a = a.customer_id == customer_id

-- `customer?.primaryEmail ? … : null`: neither a missing nor an empty address is a recipient.
unfoldable pub legacy : Option Customer → Option ResolvedRecipient
legacy none = none
legacy (some c) = elim c.primary_email [
  | none ↦ none
  | some e ↦
      if str_eq e "" then none else some (record { email = e; source = legacy_scalar_fallback })
]

unfoldable pub resolve_primary_recipient : ℕ → Db → Option ResolvedRecipient
unfolding legacy
resolve_primary_recipient customer_id db =
    elim (find_first (is_active_primary customer_id) db.email_addresses) [
      | some a ↦ some (record { email = a.1.email; source = normalized_primary })
      | none ↦ elim (find_first (is_of_customer customer_id) db.email_addresses) [
        | some _ ↦ none
        | none ↦ legacy (find customer_id db.customers)
      ]
    ]
