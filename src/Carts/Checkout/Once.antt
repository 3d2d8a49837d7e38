-- ===== src/Carts/Checkout/Once.antt =====
-- A retry of createCodOrder.
use modern_trade_website.Prelude.Table.{update, select}
use modern_trade_website.Prelude.{
  ◌∙◌, ◌≡◌, inl, sym, is_some, ℕ, ==_refl, ◌&&◌, head?, some, Bool-cases, List, none, ◌∷◌, Bool, ap,
  inr, refl, ◌==◌, [], if◌then◌else◌,
}
use modern_trade_website.Carts.Checkout.Covered.{place-ok, create-ok}
use modern_trade_website.Carts.Checkout.{
  new_order, order_of_key, rows_of_cart, is_order_of_key, placed, fingerprint_rows,
  create_cod_order, pairs,
}
use modern_trade_website.Carts.Validation.{subtotal_of, CanonicalItem}
use modern_trade_website.Prelude.Outcome.{ok_injective, ok}
use modern_trade_website.Carts.Rows.{Cart, Shop, converted}
use modern_trade_website.Carts.Places.{CodInput}
use modern_trade_website.Prelude.Table.Find.{head?-select_append}
use modern_trade_website.Orders.Rows.{WebOrder}

some-update :
    {A : Type 0} (p q : A → Bool) (f : A → A) (t : List A)
    → ((y : A) → p (f y) ≡ p y)
    → is_some (head? (select p (update q f t))) ≡ is_some (head? (select p t))
unfolding select update
some-update p q f [] k = refl
some-update p q f (x ∷ xs) k = elim (Bool-cases (q x)) [
  | inl e ↦ elim (Bool-cases (p x)) [
    | inl d ↦ rw (e, k x, d) refl
    | inr d ↦ rw (e, k x, d) (some-update p q f xs k)
  ]
  | inr e ↦ elim (Bool-cases (p x)) [
    | inl d ↦ rw (e, d) refl
    | inr d ↦ rw (e, d) (some-update p q f xs k)
  ]
]

-- The tables after a new order, to the call that comes next.
module _ (input : CodInput) (id serial now print store shipping : ℕ) (items : List CanonicalItem)
    (s : Shop) where
  abbrev after : Shop
  after = placed input id serial now print store shipping items s

  abbrev order : WebOrder
  order = new_order input id print store (subtotal_of items) shipping

  same_rows : fingerprint_rows input after ≡ fingerprint_rows input s
  same_rows =
      let same =
        some-update (λ (c : Cart). c.id == input.cart_id && c.customer_id == input.customer_id)
          (λ c. c.id == input.cart_id) (λ c. record c { status = converted }) s.carts (λ c. refl) in
      ap (λ b. if b then pairs (rows_of_cart input.cart_id s) else []) same

  found_order :
      order_of_key input.idempotency_key input.customer_id s ≡ none
      → order_of_key input.idempotency_key input.customer_id after ≡ some order
  found_order h =
      head?-select_append (is_order_of_key input.idempotency_key input.customer_id) s.orders.orders
        order h (rw (==_refl input.idempotency_key, ==_refl input.customer_id) refl)

retried :
    (digest : CodInput → List (ℕ × ℕ) → ℕ) (input : CodInput)
    (id serial now id' serial' now' store shipping : ℕ) (items : List CanonicalItem) (s : Shop)
    → order_of_key input.idempotency_key input.customer_id s ≡ none
    → let print = digest input (fingerprint_rows input s) in
      create_cod_order digest input id' serial' now'
        (after input id serial now print store shipping items s)
      ≡ (
        ok (order input id serial now print store shipping items s),
        after input id serial now print store shipping items s,
      )
unfolding create_cod_order
retried digest input id serial now id' serial' now' store shipping items s fresh =
    let print = digest input (fingerprint_rows input s) in
    rw
      (
        found_order input id serial now print store shipping items s fresh,
        same_rows input id serial now print store shipping items s,
        ==_refl print,
      )
      refl

-- A retry of a createCodOrder that made a new order, with the same request and at whatever later instant, answers with that order and writes nothing: no second order, no second reservation.
pub create_cod_order-once :
    (digest : CodInput → List (ℕ × ℕ) → ℕ) (input : CodInput) (id serial now id' serial' now' : ℕ)
    (s : Shop) (o : WebOrder)
    → order_of_key input.idempotency_key input.customer_id s ≡ none
    → (create_cod_order digest input id serial now s).0 ≡ ok o
    → let after = (create_cod_order digest input id serial now s).1 in
      create_cod_order digest input id' serial' now' after ≡ (ok o, after)
create_cod_order-once digest input id serial now id' serial' now' s o fresh h =
    let (p, ran) = create-ok digest input id serial now s o fresh h in
    let print = digest input (fingerprint_rows input s) in
    let (passed, (shipping, wrote)) =
      place-ok input id serial now print p s o (sym (ap (λ r. r.0) ran) ∙ h) in
    let row = ok_injective (sym (ap (λ r. r.0) (ran ∙ wrote)) ∙ h) in
    rw (ran ∙ wrote, sym row)
      (retried digest input id serial now id' serial' now' p.store shipping _ s fresh)
