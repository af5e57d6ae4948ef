-- ===== src/Mail/Recipient/Current.antt =====
-- Which address a customer is written to.
use mathlib.Core.List.{Memᴰ}
use crm_nusrv.Base.{
  ℕ, ◌≡◌, ◌≢◌, refl, Bool, true, Option, none, some, arith, inl, inr, find_first, find, Table,
  Option-cases, [], ◌∷◌, All, Bool-cases,
}
use crm_nusrv.Store.{Db}
use crm_nusrv.Store.Rows.{EmailAddress, Customer}
use crm_nusrv.Mail.Recipient.{
  ResolvedRecipient, is_active_primary, is_of_customer, resolve_primary_recipient, legacy,
}

-- Each answer has its evidence in the database.
pub data Evidence (customer_id : ℕ) (db : Db) (r : ResolvedRecipient) : Type 0 where
  channel :
      (id : ℕ) (a : EmailAddress)
      → Memᴰ (id, a) db.email_addresses
      → a.customer_id ≡ customer_id
      → a.primary ≡ true
      → a.active ≡ true
      → r.email ≡ a.email
      → Evidence customer_id db r
  scalar :
      (c : Customer)
      → All (λ (x : ℕ × EmailAddress). x.1.customer_id ≢ customer_id) db.email_addresses
      → find customer_id db.customers ≡ some c
      → c.primary_email ≡ some r.email
      → Evidence customer_id db r

find_first-some :
    (p : EmailAddress → Bool) (t : Table EmailAddress) (k : ℕ) (a : EmailAddress)
    → find_first p t ≡ some (k, a)
    → Memᴰ (k, a) t × (p a ≡ true)
find_first-some p [] k a e = cc
find_first-some p ((j, b) ∷ t) k a e = elim (Bool-cases (p b)) [
  | inl here ↦ (Memᴰ.head (ground arith), ground arith)
  | inr later ↦ let (m, h) = find_first-some p t k a (ground arith) in (Memᴰ.tail m, h)
]

find_first-none :
    (customer_id : ℕ) (t : Table EmailAddress)
    → find_first (is_of_customer customer_id) t ≡ none
    → All (λ (x : ℕ × EmailAddress). x.1.customer_id ≢ customer_id) t
find_first-none customer_id [] e = tt
find_first-none customer_id ((j, b) ∷ t) e = elim (Bool-cases (is_of_customer customer_id b)) [
  | inl same ↦ ground arith
  | inr other ↦ (ground arith, find_first-none customer_id t (ground arith))
]

legacy_lem :
    (c : Option Customer) (r : ResolvedRecipient)
    → legacy c ≡ some r
    → (d : Customer) × (c ≡ some d) × (d.primary_email ≡ some r.email)
unfolding legacy
legacy_lem none r e = cc
legacy_lem (some c) r e = (c, refl, ground arith)

-- A customer is written to at an active primary address of theirs; at the old scalar only if they
-- have no address row at all.
pub resolve_primary_recipient-Evidence :
    (customer_id : ℕ) (db : Db) (r : ResolvedRecipient)
    → resolve_primary_recipient customer_id db ≡ some r
    → Evidence customer_id db r
unfolding resolve_primary_recipient
resolve_primary_recipient-Evidence customer_id db r e =
    elim (Option-cases (find_first (is_active_primary customer_id) db.email_addresses)) [
      | inr ((k, a), found) ↦
          let (m, p) =
            find_first-some (is_active_primary customer_id) db.email_addresses k a found in
          channel k a m (ground arith) (ground arith) (ground arith) (ground arith)
      | inl nothing ↦
          elim (Option-cases (find_first (is_of_customer customer_id) db.email_addresses)) [
            | inr ((k, a), found) ↦ ground arith
            | inl no_row ↦
                let (c, at, email) = legacy_lem (find customer_id db.customers) r (ground arith) in
                scalar c (find_first-none customer_id db.email_addresses no_row) at email
          ]
    ]
