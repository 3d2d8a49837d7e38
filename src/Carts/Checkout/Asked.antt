-- ===== src/Carts/Checkout/Asked.antt =====
-- What the rows of a cart ask of createCodOrder, as canonical items of the validation.
use modern_trade_website.Prelude.{
  some, ◌≤◌, false, ◌≡◌, Option, arith, Bool, inl, Bool-cases, inr, List, refl, none, ℕ, ◌+◌, ◌==◌,
  ==_refl, ◌++◌, ◌∷◌, [], ==_iff, ltb, subst, ◌||◌, All-imp, leb, ◌≢◌, true, All, head?,
  if◌then◌else◌, ap,
}
use modern_trade_website.Carts.Checkout.{reservation_rows, requests, priced_items}
use modern_trade_website.Prelude.Table.{sum, Distinct, select}
use modern_trade_website.Carts.Validation.{
  verdict, is_changed, canonical, CanonicalItem, is_blocked, RequestedCartItem, canonical_item,
  authoritative_price, ItemStatus, canonical_items, available_quantity, client_differs, or_changes,
}
use modern_trade_website.Pos.Rows.{Product}
use modern_trade_website.Inventory.Rows.{held, Reservation}
use modern_trade_website.Prelude.Outcome.{ok}
use modern_trade_website.Carts.Rows.{CartItem, Shop}

not_blocked :
    (b : Bool)
    → is_blocked (if b then or_changes ItemStatus.blocked else ItemStatus.blocked) ≡ false
    → ⊥
not_blocked true h = cc
not_blocked false h = cc

not_changed :
    (b : Bool)
    → is_changed (if b then or_changes ItemStatus.changes_required else ItemStatus.changes_required)
      ≡ false
    → ⊥
not_changed true h = cc
not_changed false h = cc

-- An item that passes is asked for in full, and there is enough of it.
verdict-valid :
    (r : RequestedCartItem) (price available : ℕ) (o : Option Product)
    → let i = canonical r price available (verdict o price available r.quantity) in
      is_blocked i.status ≡ false
      → is_changed i.status ≡ false
      → (i.quantity ≡ r.quantity) × (1 ≤ r.quantity) × (r.quantity ≤ available)
verdict-valid r price available none h k =
    absurd (not_blocked (client_differs price r.client_unit_price) h)
verdict-valid r price available (some p) h k =
    let c = client_differs price r.client_unit_price in
    elim (Bool-cases p.published) [
      | inr e₁ ↦ absurd (not_blocked c (rw e₁ at h))
      | inl e₁ ↦ elim (Bool-cases (ltb r.quantity 1 || ltb 999 r.quantity)) [
        | inl e₂ ↦ absurd (not_blocked c (rw (e₁, e₂) at h))
        | inr e₂ ↦ elim (Bool-cases (leb price 0)) [
          | inl e₃ ↦ absurd (not_blocked c (rw (e₁, e₂, e₃) at h))
          | inr e₃ ↦ elim (Bool-cases (leb available 0)) [
            | inl e₄ ↦ absurd (not_blocked c (rw (e₁, e₂, e₃, e₄) at h))
            | inr e₄ ↦ elim (Bool-cases (ltb available r.quantity)) [
              | inl e₅ ↦ absurd (not_changed c (rw (e₁, e₂, e₃, e₄, e₅) at k))
              | inr e₅ ↦ rw (e₁, e₂, e₃, e₄, e₅) (refl, ground (arith, e₂), ground (arith, e₅))
            ]
          ]
        ]
      ]
    ]

module _ (order store now : ℕ) (p : ℕ) where
  pub held-append :
      (t u : List Reservation) → held now store p (t ++ u) ≡ held now store p t + held now store p u
  unfolding sum
  held-append [] u = omega arith
  held-append (x ∷ xs) u = omega (arith, held-append xs u)

  -- What the new reservations hold of a product.
  pub held-rows :
      (serial : ℕ) (is : List CanonicalItem)
      → held now store p (reservation_rows order store now serial is)
        ≡ sum (λ i. i.product_id == p) (λ i. i.quantity) is
  unfolding sum
  held-rows serial [] = refl
  held-rows serial (i ∷ is) = elim (Bool-cases (i.product_id == p)) [
    | inl e ↦ rw (e, ==_refl store) (omega (arith, held-rows (serial + 1) is))
    | inr e ↦ rw e (omega (arith, held-rows (serial + 1) is))
  ]

-- The rows of a cart as canonical items.
module _ (now store : ℕ) (s : Shop) where
  abbrev pub items_of : List CartItem → List CanonicalItem
  items_of rows = canonical_items now store s (requests rows)

  abbrev pub asked : ℕ → List CartItem → ℕ
  asked p = sum (λ i. i.product_id == p) (λ i. i.quantity)

  item-valid :
      (i : CartItem) (rest : List CanonicalItem)
      → let c =
          canonical_item now store s (record {
            product_id = i.product_id;
            quantity = i.quantity;
            client_unit_price = none;
          }) in
        priced_items (c ∷ rest) ≡ ok tt
        → (c.product_id ≡ i.product_id)
          × (c.quantity ≡ i.quantity)
          × (i.quantity ≤ available_quantity now i.product_id store s)
          × (priced_items rest ≡ ok tt)
  unfolding priced_items canonical_item
  item-valid i rest h =
      let r : RequestedCartItem = record {
        product_id = i.product_id;
        quantity = i.quantity;
        client_unit_price = none;
      } in
      let c = canonical_item now store s r in
      elim (Bool-cases (is_blocked c.status)) [
        | inl a ↦ cc (rw a at h)
        | inr a ↦ elim (Bool-cases (is_changed c.status)) [
          | inl b ↦ cc (rw (a, b) at h)
          | inr b ↦
              let (full, some_asked, enough) =
                verdict-valid r (authoritative_price now r.product_id store s)
                  (available_quantity now r.product_id store s)
                  (head? (select (λ p. p.id == r.product_id) s.products)) a b in
              (refl, full, enough, rw (a, b) at h)
        ]
      ]

  pub items-asked :
      (p : ℕ) (rows : List CartItem)
      → priced_items (items_of rows) ≡ ok tt
      → (sum (λ i. i.product_id == p) (λ i. i.quantity) (items_of rows) ≡ asked p rows)
  unfolding sum canonical_items
  items-asked p [] h = refl
  items-asked p (i ∷ is) h =
      let (same, full, enough, later) = item-valid i (items_of is) h in
      rw (same, full)
        (ap (λ n. (if i.product_id == p then i.quantity else 0) + n) (items-asked p is later))

  asked-none : (p : ℕ) (rows : List CartItem) → All (λ i. i.product_id ≢ p) rows → asked p rows ≡ 0
  unfolding sum
  asked-none p [] h = refl
  asked-none p (i ∷ is) h =
      let off : (i.product_id == p) ≡ false = ne_test i.product_id p h.0 in
      rw off (omega (arith, asked-none p is h.1))
    where
      ne_test : (a b : ℕ) → a ≢ b → (a == b) ≡ false
      ne_test a b n = ground arith

  pub asked-available :
      (p : ℕ) (rows : List CartItem)
      → Distinct (λ i. i.product_id) rows
      → priced_items (items_of rows) ≡ ok tt
      → asked p rows ≤ available_quantity now p store s
  unfolding sum canonical_items
  asked-available p [] d h = omega arith
  asked-available p (i ∷ is) d h =
      let (same, full, enough, later) = item-valid i (items_of is) h in
      elim (Bool-cases (i.product_id == p)) [
        | inl e ↦
            let here : i.product_id ≡ p = (==_iff i.product_id p).0 e in
            let none_later =
              asked-none p is (All-imp _ _ (λ j n. subst (λ q. j.product_id ≢ q) here n) is d.0) in
            let fits : i.quantity ≤ available_quantity now p store s =
              subst (λ q. i.quantity ≤ available_quantity now q store s) here enough in
            rw e (omega (arith, none_later, fits))
        | inr e ↦ rw e (omega (arith, asked-available p is d.1 later))
      ]
