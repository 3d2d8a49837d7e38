-- ===== src/Offline/Waits.antt =====
-- One pass of syncDevice over its list: what each row of the queue waits for.
use modern_trade_website.Offline.{
  QueueEntry, to_retry, SyncError, Ids, settle, State, sync_entry, Texts, is_pending, sync_entries,
}
use modern_trade_website.Prelude.{
  ◌≡◌, some, ◌∷◌, ==_iff, ℕ, inr, Bool, false, All, some_injective, none, Bool-cases, List, All-imp,
  ◌+◌, true, inl, arith, any, ◌⊎◌, ◌==◌, ◌≤◌, [], ltb, refl, ◌&&◌, Option-cases, ◌=?◌, ◌∙◌, ap,
}
use modern_trade_website.Prelude.Table.{update, Distinct, select}
use modern_trade_website.Prelude.Table.Find.{find}
use modern_trade_website.Prelude.Outcome.{ok, Result, err}
use modern_trade_website.Pos.Points.{Tables}
use modern_trade_website.Prelude.Table.Keyed.{Distinct-update}
use modern_trade_website.Pos.Rows.{Sale}
use modern_trade_website.Inventory.Issue.{Item}
use modern_trade_website.Prelude.Int.{ℤ}

module _ {A : Type 0} where
  pub All-both :
      (P Q R : A → Type 0)
      → ((x : A) → P x → Q x → R x)
      → (t : List A) → All P t
      → All Q t
      → All R t
  All-both P Q R f [] h k = tt
  All-both P Q R f (x ∷ xs) h k = (f x h.0 k.0, All-both P Q R f xs h.1 k.1)

  pub All-every : (P : A → Type 0) → ((x : A) → P x) → (t : List A) → All P t
  All-every P f [] = tt
  All-every P f (x ∷ xs) = (f x, All-every P f xs)

  All-update-cases :
      (P Q : A → Type 0) (q : A → Bool) (f : A → A) (t : List A)
      → ((x : A) → P x → q x ≡ true → Q (f x))
      → ((x : A) → P x → q x ≡ false → Q x)
      → All P t
      → All Q (update q f t)
  unfolding update
  All-update-cases P Q q f [] h k a = tt
  All-update-cases P Q q f (x ∷ xs) h k a = elim (Bool-cases (q x)) [
    | inl e ↦ rw e (h x a.0 e, All-update-cases P Q q f xs h k a.1)
    | inr e ↦ rw e (k x a.0 e, All-update-cases P Q q f xs h k a.1)
  ]

-- In a table with distinct keys the row that a query by key finds is the only one of its key.
module _ {A : Type 0} (key : A → ℕ) where
  only :
      (id : ℕ) (t : List A) (x : A)
      → Distinct key t
      → find key id t ≡ some x
      → All (λ y. (key y == id) ≡ true → y ≡ x) t
  unfolding select
  only id [] x d h = tt
  only id (y ∷ ys) x d h = elim (Bool-cases (key y == id)) [
    | inl e ↦ (
      λ _. some_injective (rw e at h),
      All-imp _ _
          (λ z apart k.
            absurd (apart (omega (arith, (==_iff (key z) id).0 k, (==_iff (key y) id).0 e))))
          ys d.0,
    )
    | inr e ↦ (λ k. cc, only id ys x d.1 (rw e at h))
  ]

  none_of : (id : ℕ) (t : List A) → find key id t ≡ none → All (λ y. (key y == id) ≡ false) t
  unfolding select
  none_of id [] h = tt
  none_of id (y ∷ ys) h = elim (Bool-cases (key y == id)) [
    | inl e ↦ cc (rw e at h)
    | inr e ↦ (e, none_of id ys (rw e at h))
  ]

sooner : (a c : Bool) (r : ℕ) → (a && (ltb (r + 1) 5 && c)) ≡ true → (a && (ltb r 5 && c)) ≡ true
sooner a c r h = ground (arith, h)

module _ (device n : ℕ) where
  -- A row that is to be retried was retried in this pass, or waits for it in the list.
  abbrev pub Waits : List QueueEntry → QueueEntry → Type 0
  Waits ls e =
      to_retry (some device) e ≡ true
      → (n + 1 ≤ e.retry_count) ⊎ ((n ≤ e.retry_count) × (any (λ l. e.id == l.id) ls ≡ true))

  Waits-skip :
      (l : QueueEntry) (ls : List QueueEntry) (e : QueueEntry)
      → (e.id == l.id) ≡ false
      → Waits (l ∷ ls) e
      → Waits ls e
  Waits-skip l ls e k w h = elim (w h) [ inl a ↦ inl a | inr (a, b) ↦ inr (a, rw k at b) ]

  Waits-retried :
      (l : QueueEntry) (ls : List QueueEntry) (e : QueueEntry)
      → Waits (l ∷ ls) e
      → Waits ls (record e { retry_count = e.retry_count + 1 })
  Waits-retried l ls e w h =
      let again : to_retry (some device) e ≡ true =
        sooner (is_pending e.queue_status) (e.device_id =? device) e.retry_count h in
      elim (w again) [ inl a ↦ inl (omega (arith, a)) | inr (a, b) ↦ inl (omega (arith, a)) ]

  -- An entry that was found in another status waits for nothing.
  still-Waits :
      (l : QueueEntry) (ls : List QueueEntry) (x : QueueEntry) (t : List QueueEntry)
      → is_pending x.queue_status ≡ false
      → All (λ y. (y.id == l.id) ≡ true → y ≡ x) t
      → All (Waits (l ∷ ls)) t
      → All (Waits ls) t
  still-Waits l ls x [] a o w = tt
  still-Waits l ls x (y ∷ ys) a o w = (
    elim (Bool-cases (y.id == l.id)) [
      | inl k ↦
          let off : is_pending y.queue_status ≡ false =
            ap (λ z. is_pending z.queue_status) (o.0 k) ∙ a in
          λ h. cc (rw off at h)
      | inr k ↦ Waits-skip l ls y k w.0
    ],
    still-Waits l ls x ys a o.1 w.1,
  )

  -- What one entry's replay leaves of the queue.
  module _ (calculate : Sale → List Item → ℤ) (texts : Texts) (expiry : ℕ → ℕ) where
    settle-Waits :
        (l : QueueEntry) (ls : List QueueEntry) (now : ℕ) (s : State)
        (r : Result SyncError ℕ × Tables)
        → All (Waits (l ∷ ls)) s.queue
        → All (Waits ls) (settle calculate texts expiry l.id now s r).1.queue
    settle-Waits l ls now s (ok made, t) w =
        All-update-cases (Waits (l ∷ ls)) (Waits ls) _ _ s.queue (λ e v k h. cc)
          (λ e v k. Waits-skip l ls e k v) w
    settle-Waits l ls now s (err x, t) w =
        All-update-cases (Waits (l ∷ ls)) (Waits ls) _ _ s.queue (λ e v k. Waits-retried l ls e v)
          (λ e v k. Waits-skip l ls e k v) w

    settle-Distinct :
        (id now : ℕ) (s : State) (r : Result SyncError ℕ × Tables)
        → Distinct (λ e. e.id) s.queue
        → Distinct (λ e. e.id) (settle calculate texts expiry id now s r).1.queue
    settle-Distinct id now s (ok made, t) d =
        Distinct-update (λ (e : QueueEntry). e.id) _ _ s.queue (λ e. refl) d
    settle-Distinct id now s (err x, t) d =
        Distinct-update (λ (e : QueueEntry). e.id) _ _ s.queue (λ e. refl) d

    found-Waits :
        (l : QueueEntry) (ls : List QueueEntry) (fresh : ℕ → Ids) (now : ℕ) (s : State)
        → Distinct (λ e. e.id) s.queue
        → All (Waits (l ∷ ls)) s.queue
        → All (Waits ls) (sync_entry calculate texts expiry l.id fresh now s).1.queue
          × Distinct (λ e. e.id) (sync_entry calculate texts expiry l.id fresh now s).1.queue
    unfolding sync_entry
    found-Waits l ls fresh now s d w =
        elim (Option-cases (find (λ (e : QueueEntry). e.id) l.id s.queue)) [
          | inl k ↦ rw k (
            All-update-cases (Waits (l ∷ ls)) (Waits ls) _ _ s.queue
                (λ e v a. Waits-retried l ls e v) (λ e v a. Waits-skip l ls e a v) w,
            Distinct-update (λ (e : QueueEntry). e.id) _ _ s.queue (λ e. refl) d,
          )
          | inr (x, k) ↦ elim (Bool-cases (is_pending x.queue_status)) [
            | inl a ↦ rw (k, a) (settle-Waits l ls now s _ w, settle-Distinct l.id now s _ d)
            | inr a ↦
                rw (k, a)
                  (
                    still-Waits l ls x s.queue a
                        (only (λ (e : QueueEntry). e.id) l.id s.queue x d k) w,
                    d,
                  )
          ]
        ]

    pub pass-Waits :
        (ls : List QueueEntry) (fresh : ℕ → Ids) (now : ℕ) (s : State)
        → Distinct (λ e. e.id) s.queue
        → All (Waits ls) s.queue
        → All (Waits []) (sync_entries calculate texts expiry ls fresh now s).1.queue
          × Distinct (λ e. e.id) (sync_entries calculate texts expiry ls fresh now s).1.queue
    unfolding sync_entries
    pass-Waits [] fresh now s d w = (w, d)
    pass-Waits (l ∷ ls) fresh now s d w =
        let (v, c) = found-Waits l ls fresh now s d w in
        pass-Waits ls fresh now (sync_entry calculate texts expiry l.id fresh now s).1 c v
