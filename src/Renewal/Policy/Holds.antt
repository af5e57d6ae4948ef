-- ===== src/Renewal/Policy/Holds.antt =====
-- What the holds on a case stop, and that the order in which they are read does not matter.
use mathlib.Core.List.{Perm, Permᴰ}
use mathlib.Core.Logic.{∥∥₁_elim}
use crm_nusrv.Base.{ℕ, ◌≡◌, refl, Bool, ◌&&◌, List, [], ◌∷◌, map, filter, any, arith, ◌∙◌}
use crm_nusrv.Renewal.Policy.{
  insert, sort, Hold, id_of, effective, stops_customer, stops_internal, aggregate_effective_holds,
  EffectiveHoldPolicy,
}

insert_comm : (a b : ℕ) (l : List ℕ) → insert a (insert b l) ≡ insert b (insert a l)
unfolding insert
insert_comm a b [] = ground arith
insert_comm a b (c ∷ l) = ground (arith, insert_comm a b l)

-- The ids that pass a test, sorted, are the same for any order of the holds.
sort-perm :
    (p : Hold → Bool) (xs ys : List Hold)
    → Permᴰ xs ys
    → sort (map id_of (filter p xs)) ≡ sort (map id_of (filter p ys))
unfolding sort
sort-perm p _ _ Permᴰ.nil = refl
sort-perm p _ _ (Permᴰ.cons {a = a} {b = b} {l₁ = xs} {l₂ = ys} e h) =
    ground (arith, sort-perm p xs ys h)
sort-perm p _ _ (Permᴰ.swap {a = a} {b = b} {l = l} e f) =
    ground (arith, insert_comm (id_of a) (id_of b) (sort (map id_of (filter p l))))
sort-perm p _ _ (Permᴰ.trans {l₁ = xs} {l₂ = ys} {l₃ = zs} h k) =
    sort-perm p xs ys h ∙ sort-perm p ys zs k

any-perm :
    (p q : Hold → Bool) (xs ys : List Hold)
    → Permᴰ xs ys
    → any p (filter q xs) ≡ any p (filter q ys)
any-perm p q _ _ Permᴰ.nil = refl
any-perm p q _ _ (Permᴰ.cons {a = a} {b = b} {l₁ = xs} {l₂ = ys} e h) =
    ground (arith, any-perm p q xs ys h)
any-perm p q _ _ (Permᴰ.swap {a = a} {b = b} {l = l} e f) = ground arith
any-perm p q _ _ (Permᴰ.trans {l₁ = xs} {l₂ = ys} {l₃ = zs} h k) =
    any-perm p q xs ys h ∙ any-perm p q ys zs k

filter-filter :
    (p q : Hold → Bool) (xs : List Hold) → filter p (filter q xs) ≡ filter (λ h. q h && p h) xs
filter-filter p q [] = refl
filter-filter p q (x ∷ xs) = ground (arith, filter-filter p q xs)

EffectiveHoldPolicy-set : IsSet EffectiveHoldPolicy
EffectiveHoldPolicy-set = hlevel

aggregate-perm :
    (as_of : ℕ) (xs ys : List Hold)
    → Permᴰ xs ys
    → aggregate_effective_holds xs as_of ≡ aggregate_effective_holds ys as_of
unfolding aggregate_effective_holds
aggregate-perm as_of xs ys h = ground (
  arith,
  sort-perm (effective as_of) xs ys h,
  filter-filter stops_customer (effective as_of) xs,
  filter-filter stops_customer (effective as_of) ys,
  filter-filter stops_internal (effective as_of) xs,
  filter-filter stops_internal (effective as_of) ys,
  sort-perm (λ k. effective as_of k && stops_customer k) xs ys h,
  sort-perm (λ k. effective as_of k && stops_internal k) xs ys h,
  any-perm stops_customer (effective as_of) xs ys h,
  any-perm stops_internal (effective as_of) xs ys h,
)

-- The policy does not depend on the order in which the holds are read from the database.
pub aggregate_order :
    (as_of : ℕ) (xs ys : List Hold)
    → Perm xs ys
    → aggregate_effective_holds xs as_of ≡ aggregate_effective_holds ys as_of
aggregate_order as_of xs ys h =
    ∥∥₁_elim h (EffectiveHoldPolicy-set _ _) (aggregate-perm as_of xs ys)
