-- ===== src/CodPolicy/Eligible.antt =====
-- Which orders may be paid on delivery under a policy.
use modern_trade_website.Prelude.{
  Option, none, some, ◌≡◌, ◌≢◌, ◌↔◌, ◌⊎◌, ℕ, List, [], ◌∷◌, Bool, true, false, Bool-cases, inl, inr,
  ◌≤◌, ◌<◌, ◌-◌, ◌/◌, ◌==◌, ◌&&◌, ◌||◌, arith, any, not, refl, All, head?,
}
use modern_trade_website.Prelude.Table.{select}
use modern_trade_website.CodPolicy.{
  CodPolicy, CustomerRow, CheckData, check_policy, check_cod_eligibility, policy_for, is_above,
  is_below, in_zone, has_restricted_category, reaches, is_new_customer, has_entry, is_newer,
  or_zero,
}

abbrev pub AtMost : Option ℕ → ℕ → Type 0
AtMost none n = Unit
AtMost (some m) n = n ≤ m

abbrev pub AtLeast : Option ℕ → ℕ → Type 0
AtLeast none n = Unit
AtLeast (some m) n = m ≤ n

abbrev pub Below : Option ℕ → ℕ → Type 0
Below none n = Unit
Below (some m) n = n < m

abbrev pub Absent : Option (List ℕ) → ℕ → Type 0
Absent none x = Unit
Absent (some xs) x = All (λ y. y ≢ x) xs

abbrev pub Outside : Option (List ℕ) → Option ℕ → Type 0
Outside zones none = Unit
Outside zones (some z) = Absent zones z

abbrev pub NoneOf : Option (List ℕ) → Option (List ℕ) → Type 0
NoneOf restricted none = Unit
NoneOf restricted (some cs) = All (Absent restricted) cs

abbrev pub IsOldEnough : ℕ → ℕ → Option CustomerRow → Type 0
IsOldEnough days now none = Unit
IsOldEnough days now (some c) = days ≤ (now - c.created_at) / 86400000

-- A customer who is given and known registered that many days ago.
abbrev pub IsRegistered : Option ℕ → ℕ → ℕ → List CustomerRow → Type 0
IsRegistered none days now customers = Unit
IsRegistered (some id) days now customers =
    IsOldEnough days now (head? (select (λ c. c.id == id) customers))

pub record PassesTests (c : CheckData) (now : ℕ) (customers : List CustomerRow) (p : CodPolicy)
    : Type 0 where
  maximum : AtMost p.max_cod_amount c.order_total
  minimum : AtLeast p.min_cod_amount c.order_total
  zone : Outside p.restricted_zones c.delivery_zone_id
  categories : NoneOf p.restricted_categories c.product_categories
  value : Below p.high_value_threshold c.order_total ⊎ (p.high_value_cod_allowed ≡ true)
  registered :
      (p.prepaid_only_for_new_customers ≡ true)
      → IsRegistered c.customer_id (or_zero p.prepaid_only_days_after_registration) now customers

above_iff : (o : Option ℕ) (n : ℕ) → (is_above o n ≡ false) ↔ AtMost o n
above_iff none n = (λ h. tt, λ h. refl)
above_iff (some m) n = (λ h. ground (arith, h), λ h. ground (arith, h))

below_iff : (o : Option ℕ) (n : ℕ) → (is_below o n ≡ false) ↔ AtLeast o n
below_iff none n = (λ h. tt, λ h. refl)
below_iff (some m) n = (λ h. ground (arith, h), λ h. ground (arith, h))

none_equal : (x : ℕ) (xs : List ℕ) → (any (λ y. y == x) xs ≡ false) ↔ All (λ y. y ≢ x) xs
none_equal x [] = (λ h. tt, λ h. refl)
none_equal x (y ∷ ys) =
    let (to, from) = none_equal x ys in
    (
      λ h. (ground (arith, h), to (ground (arith, h))),
      λ h. let rest = from h.1 in let off = h.0 in ground (arith, rest, off),
    )

entry_iff : (o : Option (List ℕ)) (x : ℕ) → (has_entry x o ≡ false) ↔ Absent o x
entry_iff none x = (λ h. tt, λ h. refl)
entry_iff (some xs) x = none_equal x xs

zone_iff : (o : Option (List ℕ)) (z : Option ℕ) → (in_zone z o ≡ false) ↔ Outside o z
zone_iff o none = (λ h. tt, λ h. refl)
zone_iff o (some z) = entry_iff o z

or_false : (a b : Bool) → (a || b) ≡ false → (a ≡ false) × (b ≡ false)
or_false a b h = (ground arith, ground arith)

none_restricted :
    (o : Option (List ℕ)) (cs : List ℕ) → (any (λ c. has_entry c o) cs ≡ false) ↔ All (Absent o) cs
none_restricted o [] = (λ h. tt, λ h. refl)
none_restricted o (c ∷ cs) =
    let (to, from) = none_restricted o cs in
    let (to_one, from_one) = entry_iff o c in
    (
      λ h.
          let (first, rest) = or_false (has_entry c o) (any (λ c. has_entry c o) cs) h in
          (to_one first, to rest),
      λ h. rw (from_one h.0) (from h.1),
    )

categories_iff : (o cs : Option (List ℕ)) → (has_restricted_category cs o ≡ false) ↔ NoneOf o cs
categories_iff o none = (λ h. tt, λ h. refl)
categories_iff o (some cs) = none_restricted o cs

value_iff :
    (o : Option ℕ) (n : ℕ) (b : Bool) → ((reaches o n && not b) ≡ false) ↔ (Below o n ⊎ (b ≡ true))
value_iff none n b = (λ h. inl tt, λ h. refl)
value_iff (some m) n true = (λ h. inr refl, λ h. ground arith)
value_iff (some m) n false =
    (λ h. inl (ground (arith, h)), λ h. elim h [ inl k ↦ ground (arith, k) | inr k ↦ cc k ])

old_enough :
    (days now : ℕ) (o : Option CustomerRow) → (is_newer days now o ≡ false) ↔ IsOldEnough days now o
old_enough days now none = (λ h. tt, λ h. refl)
old_enough days now (some c) = (λ h. ground (arith, h), λ h. ground (arith, h))

prepaid_iff :
    (b : Bool) (id : Option ℕ) (p : CodPolicy) (now : ℕ) (customers : List CustomerRow)
    → ((b && is_new_customer id p now customers) ≡ false) ↔ (
        (b ≡ true) → IsRegistered id (or_zero p.prepaid_only_days_after_registration) now customers)
prepaid_iff false id p now customers = (λ h k. cc k, λ h. refl)
prepaid_iff true none p now customers = (λ h k. tt, λ h. refl)
prepaid_iff true (some id) p now customers =
    let (to, from) =
      old_enough (or_zero p.prepaid_only_days_after_registration) now
        (head? (select (λ c. c.id == id) customers)) in
    (λ h k. to h, λ h. from (h refl))

-- An eligible order has failed no test.
all_passed :
    (c : CheckData) (now : ℕ) (customers : List CustomerRow) (p : CodPolicy)
    → (check_policy c now customers p).eligible ≡ true
    → (is_above p.max_cod_amount c.order_total ≡ false)
      × (is_below p.min_cod_amount c.order_total ≡ false)
      × (in_zone c.delivery_zone_id p.restricted_zones ≡ false)
      × (has_restricted_category c.product_categories p.restricted_categories ≡ false)
      × ((reaches p.high_value_threshold c.order_total && not p.high_value_cod_allowed) ≡ false)
      × ((p.prepaid_only_for_new_customers && is_new_customer c.customer_id p now customers)
          ≡ false)
unfolding check_policy
all_passed c now customers p h = elim (Bool-cases (is_above p.max_cod_amount c.order_total)) [
  | inl e₁ ↦ cc (rw e₁ at h)
  | inr e₁ ↦ elim (Bool-cases (is_below p.min_cod_amount c.order_total)) [
    | inl e₂ ↦ cc (rw (e₁, e₂) at h)
    | inr e₂ ↦ elim (Bool-cases (in_zone c.delivery_zone_id p.restricted_zones)) [
      | inl e₃ ↦ cc (rw (e₁, e₂, e₃) at h)
      | inr e₃ ↦
          elim (Bool-cases (has_restricted_category c.product_categories p.restricted_categories)) [
            | inl e₄ ↦ cc (rw (e₁, e₂, e₃, e₄) at h)
            | inr e₄ ↦
                elim (Bool-cases
                  (reaches p.high_value_threshold c.order_total && not p.high_value_cod_allowed)) [
                    | inl e₅ ↦ cc (rw (e₁, e₂, e₃, e₄, e₅) at h)
                    | inr e₅ ↦
                        elim (Bool-cases (
                          p.prepaid_only_for_new_customers
                          && is_new_customer c.customer_id p now customers)) [
                            | inl e₆ ↦ cc (rw (e₁, e₂, e₃, e₄, e₅, e₆) at h)
                            | inr e₆ ↦ (e₁, e₂, e₃, e₄, e₅, e₆)
                          ]
                  ]
          ]
    ]
  ]
]

-- An order may be paid on delivery under the policy that checkCODEligibility finds for it exactly if its
-- total lies between the minimum and the maximum that the policy sets, its zone and all its categories
-- are not among the restricted ones, its total is below the high-value threshold or high values are
-- allowed, and, where new customers must prepay, its customer, if given and known, registered as many
-- days ago as the policy says. Nothing else of the policy counts: not its rules on customers at risk and
-- on failed deliveries.
pub check_cod_eligibility-eligible :
    (c : CheckData) (now : ℕ) (customers : List CustomerRow) (t : List CodPolicy) (p : CodPolicy)
    → policy_for c.store_id now t ≡ some p
    → ((check_cod_eligibility c now customers t).eligible ≡ true) ↔ PassesTests c now customers p
unfolding check_cod_eligibility check_policy
check_cod_eligibility-eligible c now customers t p e =
    let above = above_iff p.max_cod_amount c.order_total in
    let below = below_iff p.min_cod_amount c.order_total in
    let zone = zone_iff p.restricted_zones c.delivery_zone_id in
    let categories = categories_iff p.restricted_categories c.product_categories in
    let value = value_iff p.high_value_threshold c.order_total p.high_value_cod_allowed in
    let registered = prepaid_iff p.prepaid_only_for_new_customers c.customer_id p now customers in
    (
      λ h.
          let (e₁, e₂, e₃, e₄, e₅, e₆) = all_passed c now customers p (rw e at h) in
          record {
            maximum = above.0 e₁;
            minimum = below.0 e₂;
            zone = zone.0 e₃;
            categories = categories.0 e₄;
            value = value.0 e₅;
            registered = registered.0 e₆;
          },
      λ k. simp (
        e,
        above.1 k.maximum,
        below.1 k.minimum,
        zone.1 k.zone,
        categories.1 k.categories,
        value.1 k.value,
        registered.1 k.registered,
      ),
    )
