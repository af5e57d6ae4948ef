-- ===== src/Base/Results.antt =====
-- A service call that answers or throws. A transaction is a call on the database: when it throws,
-- the caller goes on with the database it had.
use Prim.Native.Nat.{ℕ}
use mathlib.Core.Path.{◌≡◌, refl}
use mathlib.Core.Logic.{inl, inr}
use native.Mathlib.Omega.{arith}
use crm_nusrv.Base.Tests.{Option-cases}
use mathlib.Core.Option.{none, some}
use crm_nusrv.Base.Database.{Table, find}
use mathlib.Core.Bool.{Bool, true, false}

-- The exceptions of `@nestjs/common` that the services throw, and Prisma's for a row that is gone
-- (`findUniqueOrThrow`, `update`), and a plain `Error`.
pub data Exception : Type 0 where
  bad_request not_found conflict record_gone internal_error : Exception

pub data Result {ℓ} (A : Type ℓ) : Type ℓ where
  ok : A → Result A
  throw : Exception → Result A

infixl 5 ◌>>=◌ ◌>>◌
abbrev pub ◌>>=◌ {ℓ κ} : {A : Type ℓ} {B : Type κ} → Result A → (A → Result B) → Result B
ok a >>= f = f a
throw e >>= f = throw e

abbrev pub ◌>>◌ {ℓ} : {B : Type ℓ} → Result (Unit {0}) → Result B → Result B
m >> k = m >>= λ _. k

-- `if (!test) throw e;`
abbrev pub guard : Bool → Exception → Result (Unit {0})
guard true e = ok tt
guard false e = throw e

-- `findUniqueOrThrow({ where: { id } })`
abbrev pub find_or_throw {ℓ} : {A : Type ℓ} → ℕ → Table A → Result A
find_or_throw k t = elim (find k t) [ none ↦ throw record_gone | some a ↦ ok a ]

-- A chain that answers: its first call answered, and what follows answered to that.
pub answer-chain {ℓ κ} :
    {A : Type ℓ} {B : Type κ} {last : B} (next : A → Result B) (first : Result A)
    → (first >>= next) ≡ ok last
    → (between : A) × (first ≡ ok between) × (next between ≡ ok last)
answer-chain next (throw _) absent = cc
answer-chain next (ok between) rest = (between, refl, rest)

pub find_or_throw-eq-ok {ℓ} :
    {A : Type ℓ} (k : ℕ) (t : Table A) {a : A} → find_or_throw k t ≡ ok a → find k t ≡ some a
find_or_throw-eq-ok k t h = elim (Option-cases (find k t)) [
  | inl gone ↦ absurd (ground (arith, gone))
  | inr (a', there) ↦ ground (arith, there)
]
