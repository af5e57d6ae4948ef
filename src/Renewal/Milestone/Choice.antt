-- ===== src/Renewal/Milestone/Choice.antt =====
-- The rule that applies is the least one not yet passed, and it stays the same until it is passed.
use mathlib.Core.List.{Memᴰ}
use crm_nusrv.Base.{
  ◌≡◌, ◌⊎◌, inl, inr, refl, Bool, true, false, none, some, List, [], ◌∷◌, All, filter, arith,
  Bool-cases, if◌then◌else◌,
}
use crm_nusrv.Base.Int.{ℤ, pos, ◌≤ℤ◌, ◌<ℤ◌, leb_ℤ, ltb_ℤ}
use crm_nusrv.Renewal.Milestone.{reduce, applies, resolve_applicable}

module _ {ℓ} {T : Type ℓ} (days_before_due : T → ℤ) where
  -- `r` is a least rule of the list.
  abbrev NoneCloser : T → List T → Type 0
  NoneCloser r rules = All (λ (x : T). days_before_due r ≤ℤ days_before_due x) rules

  NoneCloser-le :
      (r s : T) (rules : List T)
      → days_before_due r ≤ℤ days_before_due s
      → NoneCloser s rules
      → NoneCloser r rules
  NoneCloser-le r s [] le _ = tt
  NoneCloser-le r s (x ∷ rules) le (h, t) = (omega arith, NoneCloser-le r s rules le t)

  -- What the fold leaves, from a rule that it holds already.
  record IsLeast (c : T) (rules : List T) (r : T) : Type ℓ where
    found : reduce days_before_due (some c) rules ≡ some r
    below : days_before_due r ≤ℤ days_before_due c
    least : NoneCloser r rules
    listed : (r ≡ c) ⊎ Memᴰ r rules

  reduce-IsLeast : (c : T) (rules : List T) → (r : T) × IsLeast c rules r
  unfolding reduce
  reduce-IsLeast c [] =
      (c, record { found = refl; below = omega arith; least = tt; listed = inl refl })
  reduce-IsLeast c (x ∷ rules) = elim (Bool-cases (ltb_ℤ (days_before_due x) (days_before_due c))) [
    | inl less ↦
        let (r, h) = reduce-IsLeast x rules in
        (
          r,
          record {
            found = rw less h.found;
            below = ground (arith, h.below);
            least = (h.below, h.least);
            listed = inr (here h.listed);
          },
        )
    | inr more ↦
        let (r, h) = reduce-IsLeast c rules in
        (
          r,
          record {
            found = rw more h.found;
            below = h.below;
            least = (ground (arith, h.below), h.least);
            listed = later h.listed;
          },
        )
  ]
    where
      here : {r : T} → (r ≡ x) ⊎ Memᴰ r rules → Memᴰ r (x ∷ rules)
      here (inl e) = Memᴰ.head e
      here (inr m) = Memᴰ.tail m

      later : {r : T} → (r ≡ c) ⊎ Memᴰ r rules → (r ≡ c) ⊎ Memᴰ r (x ∷ rules)
      later (inl e) = inl e
      later (inr m) = inr (Memᴰ.tail m)

  -- A rule of the list that is not passed, and no other such rule is nearer.
  pub record IsApplicable (rules : List T) (days : ℤ) (r : T) : Type ℓ where
    pub not_overdue : pos 0 ≤ℤ days
    pub listed : Memᴰ r rules
    pub not_passed : days ≤ℤ days_before_due r
    pub nearest :
        All (λ x. days ≤ℤ days_before_due x → days_before_due r ≤ℤ days_before_due x) rules

  mem-if :
      (p : T → Bool) (r x : T) (rest rules : List T) (b : Bool)
      → p x ≡ b
      → (Memᴰ r rest → Memᴰ r rules × (p r ≡ true))
      → Memᴰ r (if b then x ∷ rest else rest)
      → Memᴰ r (x ∷ rules) × (p r ≡ true)
  mem-if p r x rest rules true e ih (Memᴰ.head h) = (Memᴰ.head h, rw h e)
  mem-if p r x rest rules true e ih (Memᴰ.tail m) = (Memᴰ.tail (ih m).0, (ih m).1)
  mem-if p r x rest rules false e ih m = (Memᴰ.tail (ih m).0, (ih m).1)

  mem-filter :
      (p : T → Bool) (r : T) (rules : List T)
      → Memᴰ r (filter p rules)
      → Memᴰ r rules × (p r ≡ true)
  mem-filter p r [] m = elim m [ ]
  mem-filter p r (x ∷ rules) m =
      mem-if p r x (filter p rules) rules (p x) refl (mem-filter p r rules) m

  nearest-if :
      (days : ℤ) (r x : T) (rest : List T) (b : Bool)
      → applies days_before_due days x ≡ b
      → NoneCloser r (if b then x ∷ rest else rest)
      → (days ≤ℤ days_before_due x → days_before_due r ≤ℤ days_before_due x) × NoneCloser r rest
  nearest-if days r x rest true e h = ((λ _. h.0), h.1)
  nearest-if days r x rest false e h = ((λ le. absurd (ground arith)), h)

  nearest-filter :
      (days : ℤ) (r : T) (rules : List T)
      → NoneCloser r (filter (applies days_before_due days) rules)
      → All (λ x. days ≤ℤ days_before_due x → days_before_due r ≤ℤ days_before_due x) rules
  nearest-filter days r [] h = tt
  nearest-filter days r (x ∷ rules) h =
      let (here, rest) =
        nearest-if days r x (filter (applies days_before_due days) rules)
          (applies days_before_due days x) refl h in
      (here, nearest-filter days r rules rest)

  none_apply :
      (days : ℤ) (rules : List T)
      → filter (applies days_before_due days) rules ≡ []
      → All (λ x. days_before_due x <ℤ days) rules
  none_apply days [] e = tt
  none_apply days (x ∷ rules) e = elim (Bool-cases (applies days_before_due days x)) [
    | inl in_time ↦ ground arith
    | inr past ↦ (ground arith, none_apply days rules (ground arith))
  ]

  -- The choice on the rules that are not passed.
  choice :
      (days : ℤ) (rules kept : List T)
      → filter (applies days_before_due days) rules ≡ kept
      → pos 0 ≤ℤ days
      → ((r : T) × (resolve_applicable days_before_due rules days ≡ some r)
          × IsApplicable rules days r)
        ⊎ ((resolve_applicable days_before_due rules days ≡ none)
            × All (λ x. days_before_due x <ℤ days) rules)
  unfolding resolve_applicable
  choice days rules [] e h = inr (ground arith, none_apply days rules e)
  choice days rules (c ∷ kept) e h =
      let (r, l) = reduce-IsLeast c kept in
      let in_kept : Memᴰ r (filter (applies days_before_due days) rules) = rw e (member l.listed) in
      let (listed, in_time) = mem-filter (applies days_before_due days) r rules in_kept in
      inl (
        r,
        ground (arith, l.found),
        record {
          not_overdue = h;
          listed = listed;
          not_passed = ground arith;
          nearest = nearest-filter days r rules (rw e (l.below, l.least));
        },
      )
    where
      member : {r : T} → (r ≡ c) ⊎ Memᴰ r kept → Memᴰ r (c ∷ kept)
      member (inl q) = Memᴰ.head q
      member (inr m) = Memᴰ.tail m

  overdue :
      (rules : List T) (days : ℤ)
      → days <ℤ pos 0
      → resolve_applicable days_before_due rules days ≡ none
  unfolding resolve_applicable
  overdue rules days h = let past : ltb_ℤ days (pos 0) ≡ true = ground arith in rw past refl

  in_due_time :
      (rules : List T) (days : ℤ)
      → pos 0 ≤ℤ days
      → resolve_applicable days_before_due rules days
        ≡ reduce days_before_due none (filter (applies days_before_due days) rules)
  unfolding resolve_applicable
  in_due_time rules days h = let due : ltb_ℤ days (pos 0) ≡ false = ground arith in rw due refl

  -- The answer is a nearest rule of the list that is not passed; there is none exactly when the due
  -- date is over or every rule is passed.
  pub resolve_applicable_lem :
      (rules : List T) (days : ℤ)
      → ((r : T) × (resolve_applicable days_before_due rules days ≡ some r)
          × IsApplicable rules days r)
        ⊎ ((resolve_applicable days_before_due rules days ≡ none)
            × ((days <ℤ pos 0) ⊎ All (λ x. days_before_due x <ℤ days) rules))
  resolve_applicable_lem rules days = elim (Bool-cases (leb_ℤ (pos 0) days)) [
    | inl in_time ↦
        elim (choice days rules (filter (applies days_before_due days) rules) refl (ground arith)) [
          | inl found ↦ inl found
          | inr (nothing, past) ↦ inr (nothing, inr past)
        ]
    | inr over ↦ inr (overdue rules days (ground arith), inl (ground arith))
  ]

  same-filter :
      (days later : ℤ) (r : T) (rules : List T)
      → days ≤ℤ later
      → later ≤ℤ days_before_due r
      → All (λ x. days ≤ℤ days_before_due x → days_before_due r ≤ℤ days_before_due x) rules
      → filter (applies days_before_due later) rules ≡ filter (applies days_before_due days) rules
  same-filter days later r [] h k _ = refl
  same-filter days later r (x ∷ rules) h k (n, ns) =
      let same : applies days_before_due later x ≡ applies days_before_due days x = ground arith in
      rw (same, same-filter days later r rules h k ns) refl

  -- Between two milestones the answer stays the same: a run that was missed is caught up by the
  -- next, with the same rule.
  pub resolve_applicable_stable :
      (rules : List T) (days later : ℤ) (r : T)
      → resolve_applicable days_before_due rules days ≡ some r
      → days ≤ℤ later
      → later ≤ℤ days_before_due r
      → resolve_applicable days_before_due rules later ≡ some r
  resolve_applicable_stable rules days later r e h k = elim (resolve_applicable_lem rules days) [
    | inl (s, found, a) ↦
        let same : s ≡ r = cc in
        let reached : pos 0 ≤ℤ later = omega (arith, a.not_overdue) in
        let near = rw same at a.nearest in
        rw
          (
            in_due_time rules later reached,
            same-filter days later r rules h k near,
            ← in_due_time rules days a.not_overdue,
          )
          e
    | inr (nothing, _) ↦ cc
  ]
