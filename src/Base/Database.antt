-- ===== src/Base/Database.antt =====
-- A database table keyed by its primary key, with the statements that the services issue.
use Prim.Native.Nat.{ℕ}
use mathlib.Core.Path.{◌≡◌}
use mathlib.Core.Bool.{Bool, false}
use mathlib.Core.Option
use mathlib.Core.Option.{Option, none, some}
use mathlib.Core.List.{List, [], ◌∷◌, ◌++◌}
use native.Mathlib.Omega.{arith}
use crm_nusrv.Base.Tests.{◌==◌, if◌then◌else◌}

abbrev pub Table {ℓ} : Type ℓ → Type ℓ
Table A = List (ℕ × A)

module _ {ℓ} {A : Type ℓ} where
  -- `findUnique({ where: { id } })`
  abbrev pub find : ℕ → Table A → Option A
  find k [] = none
  find k ((j, a) ∷ t) = if j == k then some a else find k t

  -- the row that an update of `k` under the condition `p` leaves
  abbrev pub changed : (A → Bool) → (A → A) → A → A
  changed p f a = if p a then f a else a

  -- `updateMany({ where: { id, ... }, data })`
  unfoldable pub update_many : ℕ → (A → Bool) → (A → A) → Table A → Table A
  update_many k p f [] = []
  update_many k p f ((j, a) ∷ t) =
      if j == k then (j, changed p f a) ∷ t else (j, a) ∷ update_many k p f t

  -- whether its `count` is 1
  abbrev pub matches : ℕ → (A → Bool) → Table A → Bool
  matches k p t = elim (find k t) [ none ↦ false | some a ↦ p a ]

  -- `create({ data })`, under an id that the caller generated
  abbrev pub create : ℕ → A → Table A → Table A
  create k a t = t ++ (k, a) ∷ []

  pub find-update_many :
      (j k : ℕ) (p : A → Bool) (f : A → A) (t : Table A)
      → find j (update_many k p f t)
        ≡ (if k == j then Option.map (changed p f) (find k t) else find j t)
  unfolding update_many
  find-update_many j k p f [] = ground arith
  find-update_many j k p f ((i, a) ∷ t) = ground (arith, find-update_many j k p f t)

  -- An update whose condition does not hold changes nothing.
  pub update_many-miss :
      (k : ℕ) (p : A → Bool) (f : A → A) (t : Table A)
      → matches k p t ≡ false
      → update_many k p f t ≡ t
  unfolding update_many
  update_many-miss k p f [] h = ground arith
  update_many-miss k p f ((i, a) ∷ t) h = ground (arith, update_many-miss k p f t)

  abbrev pub or_else : Option A → Option A → Option A
  or_else (some a) b = some a
  or_else none b = b

  pub find-create :
      (j k : ℕ) (a : A) (t : Table A)
      → find j (create k a t) ≡ or_else (find j t) (if k == j then some a else none)
  find-create j k a [] = ground arith
  find-create j k a ((i, b) ∷ t) = ground (arith, find-create j k a t)

module _ {ℓ} {A : Type ℓ} where
  -- `findFirst({ where })`, of a table in the order asked for
  abbrev pub find_first : (A → Bool) → Table A → Option (ℕ × A)
  find_first p [] = none
  find_first p ((k, a) ∷ t) = if p a then some (k, a) else find_first p t
