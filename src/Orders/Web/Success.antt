-- ===== src/Orders/Web/Success.antt =====
-- What a successful updateWebOrderStatus has been through.
use modern_trade_website.Prelude.{ℕ, ◌≡◌, sym, ap, ◌∙◌, Bool, Option, none, some}
use modern_trade_website.Prelude.Outcome.{
  ok, M, return, modify, ◌>>◌, ◌>>=◌, then-ok, transaction-ok,
}
use modern_trade_website.Orders.Rows.{OrderStatus, WebOrder, Db}
use modern_trade_website.Orders.Web.{
  OrderError, check_transition, issue_for, write_transition, updated_order, found, find_order,
  transition, update_web_order_status,
}

pub record Succeeded (id : ℕ) (status : OrderStatus) (actor : ℕ) (received : Bool) (now : ℕ)
    (db : Db) : Type 0 where
  pub before : WebOrder
  pub row : find_order id db ≡ some before
  pub checked : check_transition before status received db ≡ ok tt
  pub issued : (issue_for before status actor db).0 ≡ ok tt
  pub answer : update_web_order_status id status actor received now db ≡ (
    ok (updated_order status actor now before),
    write_transition before status actor received now (issue_for before status actor db).1,
  )

pub found-ok : (r : Option WebOrder) (o : WebOrder) → found r ≡ ok o → r ≡ some o
found-ok none o h = cc
found-ok (some x) o h = cc

transition-ok :
    (status : OrderStatus) (actor : ℕ) (received : Bool) (now : ℕ) (o : WebOrder) (db : Db)
    (b : WebOrder)
    → (transition status actor received now o db).0 ≡ ok b
    → (check_transition o status received db ≡ ok tt)
      × ((issue_for o status actor db).0 ≡ ok tt)
      × (transition status actor received now o db ≡ (
        ok (updated_order status actor now o),
        write_transition o status actor received now (issue_for o status actor db).1,
      ))
unfolding transition
transition-ok status actor received now o db b h =
    let check : M Db OrderError (Unit {0}) = λ d. (check_transition o status received d, d) in
    let issue = issue_for o status actor in
    let write = write_transition o status actor received now in
    let answer = updated_order status actor now o in
    let last = then-ok ((check >> issue) >> modify write) (λ _. return answer) db b h in
    let middle = then-ok (check >> issue) (λ _. modify write) db tt last.1 in
    let first = then-ok check (λ _. issue) db tt middle.1 in
    (
      first.1,
      sym (ap (λ r. r.0) first.2) ∙ middle.1,
      last.2 ∙ ap (λ r. (ok answer, r.1)) (middle.2 ∙ ap (λ r. (ok tt, write r.1)) first.2),
    )

pub success :
    (id : ℕ) (status : OrderStatus) (actor : ℕ) (received : Bool) (now : ℕ) (db : Db) (b : WebOrder)
    → (update_web_order_status id status actor received now db).0 ≡ ok b
    → Succeeded id status actor received now db
unfolding update_web_order_status
success id status actor received now db b h =
    let call : M Db OrderError WebOrder =
      (λ d. (found (find_order id d), d)) >>= transition status actor received now in
    let whole = transaction-ok call db b h in
    let first =
      then-ok (λ d. (found (find_order id d), d)) (transition status actor received now) db b
        (sym (ap (λ r. r.0) whole) ∙ h) in
    let o = first.0 in
    let rest = ap (λ r. r.0) first.2 in
    let passed =
      transition-ok status actor received now o db b (sym rest ∙ sym (ap (λ r. r.0) whole) ∙ h) in
    record {
      before = o;
      row = found-ok (find_order id db) o first.1;
      checked = passed.0;
      issued = passed.1;
      answer = whole ∙ first.2 ∙ passed.2;
    }
