-- ===== src/Offline/Drain.antt =====
-- Every entry is retried a bounded number of times.
use modern_trade_website.Offline.{
  QueueEntry, to_retry, Ids, State, Texts, is_pending, sync_entries, get_pending_entries,
  sync_device,
}
use modern_trade_website.Prelude.{
  ◌≡◌, some, ◌∷◌, ℕ, inr, Bool, false, All, Bool-cases, List, All-imp, ◌+◌, true, inl, arith, any,
  ◌==◌, ◌≤◌, [], ltb, refl, ◌&&◌, ◌=?◌, ◌∙◌, ap, length, ◌||◌, ==_refl, subst,
}
use modern_trade_website.Prelude.Table.{Distinct, select, order_by, insert_by}
use modern_trade_website.Pos.Rows.{Sale}
use modern_trade_website.Inventory.Issue.{Item}
use modern_trade_website.Prelude.Int.{ℤ}
use modern_trade_website.Offline.Waits.{Waits, All-both, All-every, pass-Waits}

over : (a c : Bool) (r : ℕ) → (a && (ltb r 5 && c)) ≡ true → 5 ≤ r → ⊥
over a c r h k = ground (arith, h, k)

-- A query's order keeps what it finds.
module _ {A : Type 0} (q : A → Bool) (ahead : A → A → Bool) where
  any-insert_by : (x : A) (t : List A) → any q (insert_by ahead x t) ≡ (q x || any q t)
  unfolding insert_by
  any-insert_by x [] = refl
  any-insert_by x (y ∷ ys) = elim (Bool-cases (ahead x y)) [
    | inl e ↦ rw e refl
    | inr e ↦ rw (e, any-insert_by x ys) (swap (q x) (q y) (any q ys))
  ]
    where
      swap : (a b c : Bool) → (b || (a || c)) ≡ (a || (b || c))
      swap a b c = ground arith

  any-order_by : (t : List A) → any q (order_by ahead t) ≡ any q t
  unfolding order_by
  any-order_by [] = refl
  any-order_by (x ∷ xs) = any-insert_by x (order_by ahead xs) ∙ ap (λ b. q x || b) (any-order_by xs)

module _ (p q : QueueEntry → Bool) (x : QueueEntry) (xs : List QueueEntry) where
  or_true : (b : Bool) → (b || true) ≡ true
  or_true b = ground arith

  any-select_later : any q (select p xs) ≡ true → any q (select p (x ∷ xs)) ≡ true
  unfolding select
  any-select_later h = elim (Bool-cases (p x)) [
    | inl k ↦ rw (k, h) (or_true (q x))
    | inr k ↦ rw (k, h) refl
  ]

  any-select_here : q x ≡ true → p x ≡ true → any q (select p (x ∷ xs)) ≡ true
  unfolding select
  any-select_here h k = rw (k, h) refl

listed :
    (p : QueueEntry → Bool) (t : List QueueEntry)
    → All (λ e. p e ≡ true → any (λ l. e.id == l.id) (select p t) ≡ true) t
listed p [] = tt
listed p (x ∷ xs) = (
  any-select_here p (λ l. x.id == l.id) x xs (==_refl x.id),
  All-imp _ _ (λ e w h. any-select_later p (λ l. e.id == l.id) x xs (w h)) xs (listed p xs),
)

select-none : {A : Type 0} (p : A → Bool) (t : List A) → All (λ e. p e ≡ false) t → select p t ≡ []
unfolding select
select-none p [] h = refl
select-none p (x ∷ xs) h = rw h.0 (select-none p xs h.1)

module _ (calculate : Sale → List Item → ℤ) (texts : Texts) (expiry : ℕ → ℕ) (device : ℕ) where
  -- Passes of syncDevice, each with the ids of new rows and its instant.
  abbrev pub passes : List ((ℕ → Ids) × ℕ) → State → State
  passes [] s = s
  passes ((fresh, now) ∷ fs) s = passes fs (sync_device calculate texts expiry device fresh now s).1

  abbrev IsTried : ℕ → QueueEntry → Type 0
  IsTried n e = to_retry (some device) e ≡ true → n ≤ e.retry_count

  pass-IsTried :
      (n : ℕ) (fresh : ℕ → Ids) (now : ℕ) (s : State)
      → Distinct (λ e. e.id) s.queue
      → All (IsTried n) s.queue
      → let after = (sync_device calculate texts expiry device fresh now s).1 in
        All (IsTried (n + 1)) after.queue × Distinct (λ e. e.id) after.queue
  unfolding sync_device get_pending_entries
  pass-IsTried n fresh now s d h =
      let ls = get_pending_entries (some device) s in
      let start : All (Waits device n ls) s.queue =
        All-both (IsTried n) _ (Waits device n ls)
          (λ e a b t. inr (
            a t,
            any-order_by (λ l. e.id == l.id) _ (select (to_retry (some device)) s.queue) ∙ b t,
          ))
          s.queue h (listed (to_retry (some device)) s.queue) in
      let (w, c) = pass-Waits device n calculate texts expiry ls fresh now s d start in
      (All-imp _ _ (λ e v t. elim (v t) [ inl a ↦ a | inr (a, b) ↦ cc ]) _ w, c)

  passes-IsTried :
      (n : ℕ) (fs : List ((ℕ → Ids) × ℕ)) (s : State)
      → Distinct (λ e. e.id) s.queue
      → All (IsTried n) s.queue
      → All (IsTried (n + length fs)) (passes fs s).queue
  passes-IsTried n [] s d h = subst (λ m. All (IsTried m) s.queue) (omega arith) h
  passes-IsTried n ((fresh, now) ∷ fs) s d h =
      let (w, c) = pass-IsTried n fresh now s d h in
      subst (λ m. All (IsTried m) (passes ((fresh, now) ∷ fs) s).queue) (omega arith)
        (passes-IsTried (n + 1) fs (sync_device calculate texts expiry device fresh now s).1 c w)

  idle_row :
      (fs : List ((ℕ → Ids) × ℕ)) (e : QueueEntry)
      → 5 ≤ length fs
      → IsTried (0 + length fs) e
      → to_retry (some device) e ≡ false
  idle_row fs e h v = elim (Bool-cases (to_retry (some device) e)) [
    | inr k ↦ k
    | inl k ↦ absurd (
        over (is_pending e.queue_status) (e.device_id =? device) e.retry_count k
          (omega (arith, h, v k)))
  ]

  -- After five passes of syncDevice or more over a queue with distinct ids, whatever the replays of the
  -- entries answer, getPendingEntries finds no entry of the device, and a further pass syncs and fails
  -- none and writes nothing.
  pub passes-drain :
      (fs : List ((ℕ → Ids) × ℕ)) (fresh : ℕ → Ids) (now : ℕ) (s : State)
      → Distinct (λ e. e.id) s.queue
      → 5 ≤ length fs
      → (get_pending_entries (some device) (passes fs s) ≡ [])
        × (sync_device calculate texts expiry device fresh now (passes fs s)
            ≡ ((0, 0), passes fs s))
  unfolding get_pending_entries sync_device sync_entries order_by
  passes-drain fs fresh now s d h =
      let tried = passes-IsTried 0 fs s d (All-every (IsTried 0) (λ e t. omega arith) s.queue) in
      let idle =
        select-none (to_retry (some device)) (passes fs s).queue
          (All-imp _ _ (λ e v. idle_row fs e h v) _ tried) in
      rw idle (refl, refl)
