-- ===== src/Renewal/Enrolment/Pages.antt =====
-- The overdue subscriptions in the order of their ids.
use crm_nusrv.Base.{
  ℕ, zero, suc, ◌≤◌, ◌<◌, ◌≡◌, ◌≢◌, refl, Bool, List, [], ◌∷◌, All, filter, length, leb, arith,
  Bool-cases, inl, inr,
}
use crm_nusrv.Store.{Db}
use crm_nusrv.Renewal.Enrolment.{Row, is_overdue, insert_by_id, by_id, overdue}

abbrev pub drop : ℕ → List Row → List Row
drop zero l = l
drop (suc n) [] = []
drop (suc n) (x ∷ l) = drop n l

-- Strictly ascending ids.
abbrev pub Ascending : List Row → Type 0
Ascending [] = Unit
Ascending (r ∷ l) = All (λ (x : Row). r.0 < x.0) l × Ascending l

-- The primary key: no id twice.
abbrev pub Distinct : List Row → Type 0
Distinct [] = Unit
Distinct (r ∷ l) = All (λ (x : Row). x.0 ≢ r.0) l × Distinct l

All-insert : (P : Row → Type 0) (r : Row) (l : List Row) → P r → All P l → All P (insert_by_id r l)
unfolding insert_by_id
All-insert P r [] h a = (h, tt)
All-insert P r (x ∷ l) h (b, a) = elim (Bool-cases (leb r.0 x.0)) [
  | inl le ↦ rw le (h, (b, a))
  | inr gt ↦ rw gt (b, All-insert P r l h a)
]

All-lt :
    (r x : Row) (l : List Row)
    → r.0 < x.0
    → All (λ (y : Row). x.0 < y.0) l
    → All (λ (y : Row). r.0 < y.0) l
All-lt r x [] h a = tt
All-lt r x (y ∷ l) h (b, a) = (omega arith, All-lt r x l h a)

insert-Ascending :
    (r : Row) (l : List Row)
    → All (λ (x : Row). x.0 ≢ r.0) l
    → Ascending l
    → Ascending (insert_by_id r l)
unfolding insert_by_id
insert-Ascending r [] n a = (tt, tt)
insert-Ascending r (x ∷ l) (d, n) (b, a) = elim (Bool-cases (leb r.0 x.0)) [
  | inl le ↦ let lt : r.0 < x.0 = ground arith in rw le ((lt, All-lt r x l lt b), (b, a))
  | inr gt ↦
      rw gt (All-insert (λ (y : Row). x.0 < y.0) r l (ground arith) b, insert-Ascending r l n a)
]

All-by_id : (P : Row → Type 0) (l : List Row) → All P l → All P (by_id l)
unfolding by_id
All-by_id P [] a = tt
All-by_id P (x ∷ l) (h, a) = All-insert P x (by_id l) h (All-by_id P l a)

by_id-Ascending : (l : List Row) → Distinct l → Ascending (by_id l)
unfolding by_id
by_id-Ascending [] d = tt
by_id-Ascending (x ∷ l) (n, d) =
    insert-Ascending x (by_id l) (All-by_id (λ (y : Row). y.0 ≢ x.0) l n) (by_id-Ascending l d)

All-filter : (P : Row → Type 0) (p : Row → Bool) (l : List Row) → All P l → All P (filter p l)
All-filter P p [] a = tt
All-filter P p (x ∷ l) (h, a) = elim (Bool-cases (p x)) [
  | inl keep ↦ rw keep (h, All-filter P p l a)
  | inr leave ↦ rw leave (All-filter P p l a)
]

filter-Distinct : (p : Row → Bool) (l : List Row) → Distinct l → Distinct (filter p l)
filter-Distinct p [] d = tt
filter-Distinct p (x ∷ l) (n, d) = elim (Bool-cases (p x)) [
  | inl keep ↦ rw keep (All-filter (λ (y : Row). y.0 ≢ x.0) p l n, filter-Distinct p l d)
  | inr leave ↦ rw leave (filter-Distinct p l d)
]

length-filter-le : (p : Row → Bool) (l : List Row) → length (filter p l) ≤ length l
length-filter-le p [] = omega arith
length-filter-le p (x ∷ l) = elim (Bool-cases (p x)) [
  | inl keep ↦ rw keep (omega (arith, length-filter-le p l))
  | inr leave ↦ rw leave (omega (arith, length-filter-le p l))
]

length-insert : (r : Row) (l : List Row) → length (insert_by_id r l) ≡ suc (length l)
unfolding insert_by_id
length-insert r [] = refl
length-insert r (x ∷ l) = elim (Bool-cases (leb r.0 x.0)) [
  | inl le ↦ rw le refl
  | inr gt ↦ rw gt (omega (arith, length-insert r l))
]

length-by_id : (l : List Row) → length (by_id l) ≡ length l
unfolding by_id
length-by_id [] = refl
length-by_id (x ∷ l) = omega (arith, length-insert x (by_id l), length-by_id l)

pub overdue-Ascending :
    (cutoff : ℕ) (db : Db) → Distinct db.subscriptions → Ascending (overdue cutoff db)
unfolding overdue
overdue-Ascending cutoff db d =
    by_id-Ascending (filter (is_overdue cutoff db.customers) db.subscriptions)
      (filter-Distinct (is_overdue cutoff db.customers) db.subscriptions d)

pub length-overdue : (cutoff : ℕ) (db : Db) → length (overdue cutoff db) ≤ length db.subscriptions
unfolding overdue
length-overdue cutoff db = omega (
  arith,
  length-by_id (filter (is_overdue cutoff db.customers) db.subscriptions),
  length-filter-le (is_overdue cutoff db.customers) db.subscriptions,
)
