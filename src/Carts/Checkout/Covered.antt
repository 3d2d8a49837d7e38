-- ===== src/Carts/Checkout/Covered.antt =====
-- An order of createCodOrder reserves what its cart holds, and no more than there is.
use modern_trade_website.Carts.Checkout.Asked.{
  items_of, asked, held-append, held-rows, items-asked, asked-available,
}
use modern_trade_website.Prelude.{
  ◌≤◌, ◌≡◌, arith, inl, Bool-cases, inr, List, refl, none, ℕ, ◌+◌, ◌++◌, head?, Option-cases, ap,
  is_empty, ◌∙◌, sym, ◌⊎◌,
}
use modern_trade_website.Carts.Checkout.{
  reservation_rows, priced_items, new_order, create_cod_order, place_order, is_cart_of,
  order_of_key, fingerprint_rows, rows_of_cart, placed, order_once,
}
use modern_trade_website.Prelude.Table.{Distinct, select}
use modern_trade_website.Carts.Validation.{available_quantity, subtotal_of}
use modern_trade_website.Inventory.Rows.{held, stock}
use modern_trade_website.Prelude.Outcome.{ok, transaction-ok, Result-cases, ok_injective}
use modern_trade_website.Carts.Rows.{Shop}
use modern_trade_website.Carts.Places.{
  place_of, is_accepting, shipping_of, open_store, Place, CodInput,
}
use modern_trade_website.Orders.Rows.{WebOrder}
use modern_trade_website.Prelude.Int.{pos, ◌≤ℤ◌, int_laws, neg_part, negsuc, ℤ, pos_part, ◌-ℤ◌}

-- What a checkout that goes through its guards writes.
pub place-ok :
    (input : CodInput) (id serial now print : ℕ) (p : Place) (s : Shop) (o : WebOrder)
    → (place_order input id serial now print p s).0 ≡ ok o
    → let items = items_of now p.store s (rows_of_cart input.cart_id s) in
      (priced_items items ≡ ok tt)
      × ((shipping : ℕ) × (place_order input id serial now print p s ≡ (
        ok (new_order input id print p.store (subtotal_of items) shipping),
        placed input id serial now print p.store shipping items s,
      )))
unfolding place_order
place-ok input id serial now print p s o h =
    let rows = rows_of_cart input.cart_id s in
    let items = items_of now p.store s rows in
    elim (Result-cases (open_store (head? (select (is_accepting p.store) s.stores)))) [
      | inr (e, a) ↦ cc (rw a at h)
      | inl (u, a) ↦ elim (Option-cases (head? (select (is_cart_of input p.store) s.carts))) [
        | inl b ↦ cc (rw (a, b) at h)
        | inr (cart, b) ↦ elim (Bool-cases (is_empty rows)) [
          | inl d ↦ cc (rw (a, b, d) at h)
          | inr d ↦ elim (Result-cases (priced_items items)) [
            | inr (e, f) ↦ cc (rw (a, b, d, f) at h)
            | inl (v, f) ↦ elim (Result-cases (shipping_of now input (subtotal_of items) s p)) [
              | inr (e, g) ↦ cc (rw (a, b, d, f, g) at h)
              | inl (shipping, g) ↦ (f, (shipping, rw (a, b, d, f, g) refl))
            ]
          ]
        ]
      ]
    ]

-- A new order goes through a place.
pub create-ok :
    (digest : CodInput → List (ℕ × ℕ) → ℕ) (input : CodInput) (id serial now : ℕ) (s : Shop)
    (o : WebOrder)
    → order_of_key input.idempotency_key input.customer_id s ≡ none
    → (create_cod_order digest input id serial now s).0 ≡ ok o
    → (p : Place) × (create_cod_order digest input id serial now s
        ≡ place_order input id serial now (digest input (fingerprint_rows input s)) p s)
unfolding create_cod_order
create-ok digest input id serial now s o fresh h =
    let ran =
      transaction-ok
        (λ x.
          order_once input id serial now (digest input (fingerprint_rows input x))
            (order_of_key input.idempotency_key input.customer_id x) x)
        s o h in
    elim (Result-cases (place_of now input s)) [
      | inr (e, a) ↦ cc (rw (fresh, a) at h)
      | inl (p, a) ↦
          let through : order_once input id serial now (digest input (fingerprint_rows input s))
                (order_of_key input.idempotency_key input.customer_id s) s
              ≡ place_order input id serial now (digest input (fingerprint_rows input s)) p s =
            rw (fresh, a) refl in
          (p, ran ∙ through)
    ]

one_part : (a : ℤ) → (pos_part a ≡ 0) ⊎ (neg_part a ≡ 0)
one_part (pos n) = inr refl
one_part (negsuc n) = inl refl

-- The sums after the writes.
placed-held :
    (input : CodInput) (id serial now store : ℕ) (s : Shop) (q : ℕ)
    → let rows = rows_of_cart input.cart_id s in
      Distinct (λ i. i.product_id) rows
      → priced_items (items_of now store s rows) ≡ ok tt
      → let t = s.orders.shelf.reservations in
        let t' = t ++ reservation_rows id store now serial (items_of now store s rows) in
        (held now store q t' ≡ held now store q t + asked now store s q rows)
        × (pos (held now store q t) ≤ℤ stock store q s.orders.shelf.batches
            → pos (held now store q t') ≤ℤ stock store q s.orders.shelf.batches)
unfolding available_quantity
placed-held input id serial now store s q d passed =
    let rows = rows_of_cart input.cart_id s in
    let more =
      held-append id store now q s.orders.shelf.reservations
        (reservation_rows id store now serial (items_of now store s rows)) in
    let new_rows = held-rows id store now q serial (items_of now store s rows) in
    let sums = items-asked now store s q rows passed in
    let fits : asked now store s q rows
        ≤ pos_part (
            stock store q s.orders.shelf.batches
            -ℤ pos (held now store q s.orders.shelf.reservations)) =
      asked-available now store s q rows d passed in
    let apart = one_part (
      stock store q s.orders.shelf.batches -ℤ pos (held now store q s.orders.shelf.reservations)) in
    (
      omega (arith, more, new_rows, sums),
      λ c. elim apart [
        | inl z ↦ omega (int_laws, more, new_rows, sums, fits, c, z)
        | inr z ↦ omega (int_laws, more, new_rows, sums, fits, c, z)
      ],
    )

-- A createCodOrder that makes a new order, from a cart with each product once, changes no batch, and
-- raises what is held of every product in the order's store by exactly what the cart asks of it. Where all
-- that was held of the product was in stock, all that is held after is in stock: no order oversells.
pub create_cod_order-IsCovered :
    (digest : CodInput → List (ℕ × ℕ) → ℕ) (input : CodInput) (id serial now : ℕ) (s : Shop)
    (o : WebOrder)
    → order_of_key input.idempotency_key input.customer_id s ≡ none
    → Distinct (λ i. i.product_id) (rows_of_cart input.cart_id s)
    → (create_cod_order digest input id serial now s).0 ≡ ok o
    → let after = (create_cod_order digest input id serial now s).1 in
      (after.orders.shelf.batches ≡ s.orders.shelf.batches)
      × ((p : ℕ)
          → (held now o.store_id p after.orders.shelf.reservations
              ≡ held now o.store_id p s.orders.shelf.reservations
                + asked now o.store_id s p (rows_of_cart input.cart_id s))
            × (pos (held now o.store_id p s.orders.shelf.reservations)
                  ≤ℤ stock o.store_id p s.orders.shelf.batches
                → pos (held now o.store_id p after.orders.shelf.reservations)
                  ≤ℤ stock o.store_id p after.orders.shelf.batches))
create_cod_order-IsCovered digest input id serial now s o fresh d h =
    let (p, ran) = create-ok digest input id serial now s o fresh h in
    let print = digest input (fingerprint_rows input s) in
    let (passed, (shipping, wrote)) =
      place-ok input id serial now print p s o (sym (ap (λ r. r.0) ran) ∙ h) in
    let row = ok_injective (sym (ap (λ r. r.0) (ran ∙ wrote)) ∙ h) in
    let at : p.store ≡ o.store_id = ap (λ x. x.store_id) row in
    rw (ran ∙ wrote, sym at) (refl, λ q. placed-held input id serial now p.store s q d passed)
