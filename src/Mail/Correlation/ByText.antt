-- ===== src/Mail/Correlation/ByText.antt =====
-- The renewal case that a header names: it is found by its text.
use crm_nusrv.Base.{
  is_empty, trimmed, Table, ℕ, ◌≡◌, inl, inr, true, false, Option, some, String, [], ◌∷◌, find,
  arith, Bool-cases, Option-cases, ◌==◌, str_eq,
}
use crm_nusrv.Mail.Correlation.{find_by_text, hinted}
use crm_nusrv.Store.{Db}
use crm_nusrv.Store.Rows.{RenewalCase}

by_text-test :
    (id_text : ℕ → String) (text : String) (t : Table RenewalCase) {k : ℕ} {c : RenewalCase}
    → find_by_text id_text text t ≡ some (k, c)
    → str_eq (id_text k) text ≡ true
by_text-test id_text text [] h = absurd (cc)
by_text-test id_text text ((j, d) ∷ t) {k} {c} h = elim (Bool-cases (str_eq (id_text j) text)) [
  | inl here ↦
      let found : ◌≡◌ {A = Option (ℕ × RenewalCase)} (some (j, d)) (some (k, c)) = rw here at h in
      let same : j ≡ k = cc in rw (← same) here
  | inr later ↦ by_text-test id_text text t (rw later at h)
]

-- Two rows of one key have one text, so the row found by its text is found by its key.
find-by_text :
    (id_text : ℕ → String) (text : String) (t : Table RenewalCase) {k : ℕ} {c : RenewalCase}
    → find_by_text id_text text t ≡ some (k, c)
    → find k t ≡ some c
find-by_text id_text text [] h = absurd (cc)
find-by_text id_text text ((j, d) ∷ t) {k} {c} h = elim (Bool-cases (str_eq (id_text j) text)) [
  | inl here ↦
      let found : ◌≡◌ {A = Option (ℕ × RenewalCase)} (some (j, d)) (some (k, c)) = rw here at h in
      ground arith
  | inr later ↦
      let h' : find_by_text id_text text t ≡ some (k, c) = rw later at h in
      elim (Bool-cases (j == k)) [
        | inl same ↦
            absurd (distinct_rows j k (ground arith) later (by_text-test id_text text t h'))
        | inr differ ↦ rw differ (find-by_text id_text text t h')
      ]
]
  where
    distinct_rows :
        (j k : ℕ) → j ≡ k → str_eq (id_text j) text ≡ false → str_eq (id_text k) text ≡ true → ⊥
    distinct_rows j k e no_match match = let m : str_eq (id_text j) text ≡ true = rw e match in cc

pub hinted-find :
    (id_text : ℕ → String) (header : Option String) (db : Db) (case_id : ℕ) (c : RenewalCase)
    → hinted id_text header db ≡ some (case_id, c)
    → find case_id db.renewal_cases ≡ some c
hinted-find id_text header db case_id c h = elim (Option-cases header) [
  | inl absent ↦ absurd (ground (arith, absent))
  | inr (text, present) ↦ elim (Bool-cases (is_empty (trimmed text))) [
    | inl blank ↦ absurd (ground (arith, present, blank))
    | inr filled ↦
        find-by_text id_text (trimmed text) db.renewal_cases (ground (arith, present, filled))
  ]
]
