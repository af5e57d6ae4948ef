-- ===== src/Mail/Inbound/Safety/Fetching.antt =====
-- What the reader answers leaves no message out, and goes on doing so while messages arrive.
use crm_nusrv.Base.{
  ℕ, zero, suc, ◌≤◌, ◌<◌, ◌≡◌, refl, ap, ◌⊎◌, inl, inr, false, List, [], ◌∷◌, ◌++◌, All, In,
  In-append_left, filter, take, ltb, arith, Bool-cases,
}
use crm_nusrv.Mail.Inbound.{FetchedMailboxMessage}
use crm_nusrv.Mail.Inbound.System.{is_after}
use crm_nusrv.Mail.Inbound.Safety.{Ascending, IsNext, Follow}

pub All-In :
    (p : FetchedMailboxMessage → Type 0) (l : List FetchedMailboxMessage)
    (m : FetchedMailboxMessage)
    → All p l
    → In m l
    → p m
All-In p [] m a i = absurd i
All-In p (x ∷ l) m (h, a) (inl e) = rw e h
All-In p (x ∷ l) m (h, a) (inr i) = All-In p l m a i

filter-after :
    (uid : ℕ) (l : List FetchedMailboxMessage)
    → All (λ n. uid < n.uid) l
    → filter (is_after uid) l ≡ l
filter-after uid [] a = refl
filter-after uid (m ∷ l) (h, a) = ground (arith, filter-after uid l a)

All-after :
    (a b : ℕ) (l : List FetchedMailboxMessage)
    → a ≤ b
    → All (λ n. b < n.uid) l
    → All (λ n. a < n.uid) l
All-after a b [] h all = tt
All-after a b (m ∷ l) h (first, all) = (omega arith, All-after a b l h all)

module _ (mailbox : List FetchedMailboxMessage) where
  -- `l` is the end of the mailbox from which nothing past `uid` is missing.
  abbrev IsTail : ℕ → List FetchedMailboxMessage → Type 0
  IsTail uid l = (n : FetchedMailboxMessage) → In n mailbox → uid < n.uid → In n l

  abbrev IsPart : List FetchedMailboxMessage → Type 0
  IsPart l = (n : FetchedMailboxMessage) → In n l → In n mailbox

  take-Follow :
      (n uid : ℕ) (l : List FetchedMailboxMessage)
      → Ascending l
      → IsPart l
      → IsTail uid l
      → All (λ m. uid < m.uid) l
      → Follow mailbox uid (take n l)
  take-Follow zero uid l asc part tail after = tt
  take-Follow (suc n) uid [] asc part tail after = tt
  take-Follow (suc n) uid (m ∷ l) (first, asc) part tail (past, after) = (
    record { there = part m (inl refl); after = past; nearest = λ k i h. nearest k (tail k i h) },
    take-Follow n m.uid l asc (λ k i. part k (inr i))
        (λ k i h. later k (omega arith) (tail k i (omega arith))) first,
  )
    where
      nearest : (k : FetchedMailboxMessage) → In k (m ∷ l) → m.uid ≤ k.uid
      nearest k (inl e) = rw e (omega arith)
      nearest k (inr i) = let h = All-In (λ x. m.uid < x.uid) l k first i in omega (arith, h)

      later : (k : FetchedMailboxMessage) → m.uid < k.uid → In k (m ∷ l) → In k l
      later k h (inl e) = absurd (omega (arith, ap (λ (x : FetchedMailboxMessage). x.uid) e))
      later k h (inr i) = i

  filter-Follow :
      (n uid : ℕ) (l : List FetchedMailboxMessage)
      → Ascending l
      → IsPart l
      → IsTail uid l
      → Follow mailbox uid (take n (filter (is_after uid) l))
  filter-Follow n uid [] asc part tail = take-Follow n uid [] asc part tail tt
  filter-Follow n uid (m ∷ l) (first, asc) part tail = elim (Bool-cases (ltb uid m.uid)) [
    | inl past ↦
        let all : All (λ n. uid < n.uid) (m ∷ l) =
          (ground arith, All-after uid m.uid l (ground arith) first) in
        rw (filter-after uid (m ∷ l) all) (take-Follow n uid (m ∷ l) (first, asc) part tail all)
    | inr before ↦ rw before (
        filter-Follow n uid l asc (λ k i. part k (inr i))
          (λ k i h. further before k h (tail k i h)))
  ]
    where
      further :
          ltb uid m.uid ≡ false → (k : FetchedMailboxMessage) → uid < k.uid → In k (m ∷ l) → In k l
      further before k h (inl e) =
          absurd (ground (arith, ap (λ (x : FetchedMailboxMessage). x.uid) e))
      further before k h (inr i) = i

-- A batch of what stands after the cursor.
pub fetched-Follow :
    (mailbox : List FetchedMailboxMessage) (n uid : ℕ)
    → Ascending mailbox
    → Follow mailbox uid (take n (filter (is_after uid) mailbox))
fetched-Follow mailbox n uid asc = filter-Follow mailbox n uid mailbox asc (λ k i. i) (λ k i h. i)

pub In-arrived :
    (mailbox : List FetchedMailboxMessage) (m n : FetchedMailboxMessage)
    → In n (mailbox ++ m ∷ [])
    → In n mailbox ⊎ (n ≡ m)
In-arrived [] m n (inl e) = inr e
In-arrived [] m n (inr i) = absurd i
In-arrived (x ∷ l) m n (inl e) = inl (inl e)
In-arrived (x ∷ l) m n (inr i) = elim (In-arrived l m n i) [
  | inl there ↦ inl (inr there)
  | inr e ↦ inr e
]

module _ (mailbox : List FetchedMailboxMessage) (m : FetchedMailboxMessage) (uid_next : ℕ)
    (below : All (λ x. x.uid < uid_next) mailbox) (fresh : uid_next ≤ m.uid) where
  arrived-IsNext :
      {uid : ℕ} {k : FetchedMailboxMessage}
      → IsNext mailbox uid k
      → IsNext (mailbox ++ m ∷ []) uid k
  arrived-IsNext {uid} {k} n = record {
    there = In-append_left k mailbox (m ∷ []) n.there;
    after = n.after;
    nearest = λ j i h. near j (In-arrived mailbox m j i) h;
  }
    where
      near : (j : FetchedMailboxMessage) → In j mailbox ⊎ (j ≡ m) → uid < j.uid → k.uid ≤ j.uid
      near j (inl i) h = n.nearest j i h
      near j (inr e) h =
          let known = All-In (λ x. x.uid < uid_next) mailbox k below n.there in
          omega (arith, known, fresh, ap (λ (x : FetchedMailboxMessage). x.uid) e)

  pub arrived-Follow :
      (uid : ℕ) (l : List FetchedMailboxMessage)
      → Follow mailbox uid l
      → Follow (mailbox ++ m ∷ []) uid l
  arrived-Follow uid [] f = tt
  arrived-Follow uid (k ∷ l) (n, f) = (arrived-IsNext n, arrived-Follow k.uid l f)

  pub arrived-Ascending : Ascending mailbox → Ascending (mailbox ++ m ∷ [])
  arrived-Ascending asc = ascending mailbox below asc
    where
      last :
          (x : FetchedMailboxMessage) (l : List FetchedMailboxMessage)
          → x.uid < uid_next
          → All (λ n. x.uid < n.uid) l
          → All (λ n. x.uid < n.uid) (l ++ m ∷ [])
      last x [] h all = (omega arith, tt)
      last x (y ∷ l) h (first, all) = (first, last x l h all)

      ascending :
          (l : List FetchedMailboxMessage)
          → All (λ x. x.uid < uid_next) l
          → Ascending l
          → Ascending (l ++ m ∷ [])
      ascending [] b a = (tt, tt)
      ascending (x ∷ l) (h, b) (first, a) = (last x l h first, ascending l b a)

  pub arrived-below : All (λ x. x.uid < suc m.uid) (mailbox ++ m ∷ [])
  arrived-below = all mailbox below
    where
      all :
          (l : List FetchedMailboxMessage)
          → All (λ x. x.uid < uid_next) l
          → All (λ x. x.uid < suc m.uid) (l ++ m ∷ [])
      all [] b = (omega arith, tt)
      all (x ∷ l) (h, b) = (omega arith, all l b)
