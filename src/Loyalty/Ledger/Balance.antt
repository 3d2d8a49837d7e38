-- ===== src/Loyalty/Ledger/Balance.antt =====
-- What createEntry does to a balance, and that a key makes one entry.
use modern_trade_website.Loyalty.Rows.{is_expire, LedgerEntry, Db}
use modern_trade_website.Prelude.{
  none, Bool-cases, not, some, inr, sym, ◌&&◌, ◌∷◌, ◌++◌, inl, ◌≡◌, ◌==◌, ==_refl, refl, ◌=?◌, ℕ,
  [], if◌then◌else◌, subst, Option, true, ap, ◌∙◌,
}
use modern_trade_website.Prelude.Outcome.{err, ok_injective, ok, Result}
use modern_trade_website.Prelude.Int.{◌+ℤ◌, pos, parts_of_eq, int_laws}
use modern_trade_website.Loyalty.Ledger.{
  counts_as_available, create_entry, LedgerError, find_by_idempotency_key, check_entry, entry_of,
  CreateLedgerEntryInput, available, appended, entry_once,
}
use modern_trade_website.Prelude.Table.Keyed.{sum_ℤ-append}
use modern_trade_website.Prelude.Table.{sum_ℤ}
use modern_trade_website.Prelude.Table.Find.{head?-select_append}

appended-ok :
    (input : CreateLedgerEntryInput) (id : ℕ) (db : Db) (r : Result LedgerError (Unit {0}))
    (b : LedgerEntry)
    → (appended input id db r).0 ≡ ok b
    → (b ≡ entry_of input id)
      × ((appended input id db r).1.ledger ≡ db.ledger ++ entry_of input id ∷ [])
appended-ok input id db (err e) b h = cc
appended-ok input id db (ok u) b h = (sym (ok_injective h), refl)

-- A createEntry that succeeds under no key, or a new one, raises what is available to its customer by
-- its points, and by nothing where the entry expires points; no other balance changes.
pub available-create_entry :
    (input : CreateLedgerEntryInput) (id customer : ℕ) (db : Db) (b : LedgerEntry)
    → find_by_idempotency_key input.idempotency_key db ≡ none
    → (create_entry input id db).0 ≡ ok b
    → available customer (create_entry input id db).1
      ≡ available customer db
        +ℤ (if input.customer_id == customer && not (is_expire input.entry_type)
            then input.points_signed
            else pos 0)
unfolding create_entry available sum_ℤ
available-create_entry input id customer db b fresh h =
    let (entry, ledger) = appended-ok input id db (check_entry input) b (rw fresh at h) in
    let sums = parts_of_eq (
      sum_ℤ-append (counts_as_available customer) (λ (e : LedgerEntry). e.points_signed) db.ledger
        (entry_of input id ∷ [])) in
    rw (fresh, ledger)
      (elim (Bool-cases (input.customer_id == customer && not (is_expire input.entry_type))) [
        | inl k ↦ rw k (omega (int_laws, rw k at sums))
        | inr k ↦ rw k (omega (int_laws, rw k at sums))
      ])

once_more :
    (input again : CreateLedgerEntryInput) (key id id' : ℕ) (db : Db) (b : LedgerEntry)
    (o : Option LedgerEntry)
    → input.idempotency_key ≡ some key
    → find_by_idempotency_key (some key) db ≡ o
    → (entry_once input id db o).0 ≡ ok b
    → let db' = (entry_once input id db o).1 in
      entry_once again id' db' (find_by_idempotency_key (some key) db') ≡ (ok b, db')
once_more input again key id id' db b (some e) k o h =
    let same : e ≡ b = ok_injective h in rw (o, same) refl
once_more input again key id id' db b none k o h =
    let (entry, ledger) = appended-ok input id db (check_entry input) b h in
    let own : (input.idempotency_key =? key) ≡ true =
      subst (λ x. (x =? key) ≡ true) (sym k) (==_refl key) in
    let stored : find_by_idempotency_key (some key) (appended input id db (check_entry input)).1
        ≡ some b =
      rw (ledger, entry)
        (head?-select_append (λ (e : LedgerEntry). e.idempotency_key =? key) db.ledger
          (entry_of input id) o own) in
    ap (λ x. entry_once again id' (appended input id db (check_entry input)).1 x) stored

-- Once createEntry has succeeded under a key, every later call under that key, whatever else it asks,
-- answers with the same entry and writes nothing.
pub create_entry-once :
    (input again : CreateLedgerEntryInput) (key id id' : ℕ) (db : Db) (b : LedgerEntry)
    → input.idempotency_key ≡ some key
    → again.idempotency_key ≡ some key
    → (create_entry input id db).0 ≡ ok b
    → let db' = (create_entry input id db).1 in create_entry again id' db' ≡ (ok b, db')
unfolding create_entry
create_entry-once input again key id id' db b k k' h =
    let first = ap (λ x. entry_once input id db (find_by_idempotency_key x db)) k in
    let second =
      ap
        (λ x.
          entry_once again id' (create_entry input id db).1
            (find_by_idempotency_key x (create_entry input id db).1))
        k' in
    second
    ∙ subst (λ r. entry_once again id' r.1 (find_by_idempotency_key (some key) r.1) ≡ (ok b, r.1))
        (sym first)
        (once_more input again key id id' db b (find_by_idempotency_key (some key) db) k refl
          (sym (ap (λ r. r.0) first) ∙ h))

-- A checked entry under a new key is appended.
pub create_entry-fresh :
    (input : CreateLedgerEntryInput) (id : ℕ) (db : Db)
    → find_by_idempotency_key input.idempotency_key db ≡ none
    → check_entry input ≡ ok tt
    → create_entry input id db ≡ appended input id db (ok tt)
unfolding create_entry
create_entry-fresh input id db fresh check = rw (fresh, check) refl
