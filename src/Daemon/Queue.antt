-- ===== src/Daemon/Queue.antt =====
-- The markets that one run of the daemon has still to close.
use gotrendlabs.Prelude.{
  ℕ, ◌≡◌, Bool, true, false, Option, none, some, List, [], ◌∷◌, arith, ◌==◌, ◌||◌, leb, refl, sym,
  ap, ◌∙◌, inl, inr, Bool-cases, if◌then◌else◌, if_either,
}
use mathlib.Core.Option
use gotrendlabs.Prelude.Lists.{All, any, select}
use gotrendlabs.Prelude.Table.{Table, lookup, update, lookup-update}
use gotrendlabs.Db.{Db, Market, rows}
use gotrendlabs.Daemon.Cycle.{
  must_close, close_or_zero, insert_by_close, order_by_close, due_markets,
}

-- The primary key of the markets.
abbrev pub IsIndexed : Table Market → Type 0
IsIndexed [] = Unit
IsIndexed ((k, r) ∷ t) = (k ≡ r.id) × (lookup k t ≡ none) × IsIndexed t

abbrev Differ : ℕ → List Market → Type 0
Differ k rs = All (λ r. (k == r.id) ≡ false) rs

-- Every listed row is in the table as listed and due, and is listed once.
abbrev pub IsQueued : (ℕ → Bool) → ℕ → Table Market → List Market → Type 0
IsQueued skips now t [] = Unit
IsQueued skips now t (r ∷ rs) =
    (lookup r.id t ≡ some r)
    × (must_close skips now r ≡ true)
    × Differ r.id rs
    × IsQueued skips now t rs

abbrev pub is_listed : ℕ → List Market → Bool
is_listed k rs = any (λ r. r.id == k) rs

-- Every row that is due is listed.
abbrev pub Covers : (ℕ → Bool) → ℕ → Table Market → List Market → Type 0
Covers skips now t rs =
    (k : ℕ) (r : Market)
    → lookup k t ≡ some r
    → must_close skips now r ≡ true
    → is_listed k rs ≡ true

module _ (skips : ℕ → Bool) (now : ℕ) where
  Differ-of_none :
      (k : ℕ) (t : Table Market) (rs : List Market)
      → lookup k t ≡ none
      → IsQueued skips now t rs
      → Differ k rs
  Differ-of_none k t [] e h = tt
  Differ-of_none k t (r ∷ rs) e h = (ground arith, Differ-of_none k t rs e h.3)

  IsQueued-cons :
      (k : ℕ) (v : Market) (t : Table Market) (rs : List Market)
      → lookup k t ≡ none
      → IsQueued skips now t rs
      → IsQueued skips now ((k, v) ∷ t) rs
  unfolding lookup
  IsQueued-cons k v t [] e h = tt
  IsQueued-cons k v t (r ∷ rs) e h = (ground arith, h.1, h.2, IsQueued-cons k v t rs e h.3)

  select-IsQueued :
      (t : Table Market)
      → IsIndexed t
      → IsQueued skips now t (select (must_close skips now) (rows t))
  unfolding lookup
  select-IsQueued [] h = tt
  select-IsQueued ((k, r) ∷ t) h =
      let rest = select-IsQueued t h.2 in
      let lifted = IsQueued-cons k r t _ h.1 rest in
      let other = Differ-of_none k t _ h.1 rest in
      elim (Bool-cases (must_close skips now r)) [
        | inl due ↦ rw due (ground arith, due, rw (sym h.0) other, lifted)
        | inr early ↦ rw early lifted
      ]

  Differ-insert :
      (k : ℕ) (r : Market) (rs : List Market) → Differ k (r ∷ rs) → Differ k (insert_by_close r rs)
  unfolding insert_by_close
  Differ-insert k r [] h = h
  Differ-insert k r (q ∷ qs) h = ground (arith, Differ-insert k r qs)

  IsQueued-insert :
      (t : Table Market) (r : Market) (rs : List Market)
      → IsQueued skips now t (r ∷ rs)
      → IsQueued skips now t (insert_by_close r rs)
  unfolding insert_by_close
  IsQueued-insert t r [] h = h
  IsQueued-insert t r (q ∷ qs) h =
      let swap : (q.id == r.id) ≡ false = ground (arith, h.2.0) in
      if_either (IsQueued skips now t) (leb (close_or_zero r.close_at) (close_or_zero q.close_at)) h
        (
          h.3.0,
          h.3.1,
          Differ-insert q.id r qs (swap, h.3.2),
          IsQueued-insert t r qs (h.0, h.1, h.2.1, h.3.3),
        )

  Differ-order : (k : ℕ) (rs : List Market) → Differ k rs → Differ k (order_by_close rs)
  unfolding order_by_close
  Differ-order k [] h = tt
  Differ-order k (r ∷ rs) h = Differ-insert k r (order_by_close rs) (h.0, Differ-order k rs h.1)

  IsQueued-order :
      (t : Table Market) (rs : List Market)
      → IsQueued skips now t rs
      → IsQueued skips now t (order_by_close rs)
  unfolding order_by_close
  IsQueued-order t [] h = tt
  IsQueued-order t (r ∷ rs) h =
      IsQueued-insert t r (order_by_close rs)
        (h.0, h.1, Differ-order r.id rs h.2, IsQueued-order t rs h.3)

  -- The query lists the due rows, each once.
  pub due_markets-IsQueued :
      (db : Db) → IsIndexed db.markets → IsQueued skips now db.markets (due_markets skips now db)
  unfolding due_markets
  due_markets-IsQueued db h = IsQueued-order db.markets _ (select-IsQueued db.markets h)

  is_listed-insert :
      (k : ℕ) (r : Market) (rs : List Market)
      → is_listed k (insert_by_close r rs) ≡ ((r.id == k) || is_listed k rs)
  unfolding insert_by_close
  is_listed-insert k r [] = refl
  is_listed-insert k r (q ∷ qs) = ground (arith, is_listed-insert k r qs)

  is_listed-order : (k : ℕ) (rs : List Market) → is_listed k (order_by_close rs) ≡ is_listed k rs
  unfolding order_by_close
  is_listed-order k [] = refl
  is_listed-order k (r ∷ rs) =
      is_listed-insert k r (order_by_close rs) ∙ ap (λ b. (r.id == k) || b) (is_listed-order k rs)

  select-Covers :
      (t : Table Market) → IsIndexed t → Covers skips now t (select (must_close skips now) (rows t))
  unfolding lookup
  select-Covers [] h k r e due = cc
  select-Covers ((j, q) ∷ t) h k r e due = ground (arith, h.0, select-Covers t h.2 k r)

  pub due_markets-Covers :
      (db : Db) → IsIndexed db.markets → Covers skips now db.markets (due_markets skips now db)
  unfolding due_markets
  due_markets-Covers db h k r e due =
      is_listed-order k (select (must_close skips now) (rows db.markets))
      ∙ select-Covers db.markets h k r e due

  -- A row was closed.
  pub IsQueued-update :
      (k : ℕ) (f : Market → Market) (t : Table Market) (rs : List Market)
      → Differ k rs
      → IsQueued skips now t rs
      → IsQueued skips now (update k f t) rs
  IsQueued-update k f t [] o h = tt
  IsQueued-update k f t (r ∷ rs) o h =
      (lookup-update k r.id f t ∙ rw o.0 h.0, h.1, h.2, IsQueued-update k f t rs o.1 h.3)

  due_or : Option Market → Bool
  due_or none = false
  due_or (some r) = must_close skips now r

  written_is_closed :
      (f : Market → Market) (q : Market)
      → ((r : Market) → must_close skips now (f r) ≡ false)
      → (o : Option Market) → Option.map f o ≡ some q
      → must_close skips now q ≡ false
  unfolding due_or
  written_is_closed f q closes none e = cc
  written_is_closed f q closes (some r) e = ap due_or (sym e) ∙ closes r

  pub Covers-update :
      (f : Market → Market) (t : Table Market) (r : Market) (rs : List Market)
      → ((q : Market) → must_close skips now (f q) ≡ false)
      → Covers skips now t (r ∷ rs)
      → Covers skips now (update r.id f t) rs
  Covers-update f t r rs closes h k q e due = elim (Bool-cases (r.id == k)) [
    | inl same ↦
        let written : Option.map f (lookup k t) ≡ some q =
          ap (λ b. if b then Option.map f (lookup k t) else lookup k t) (sym same)
          ∙ sym (lookup-update r.id k f t)
          ∙ e in
        cc (written_is_closed f q closes (lookup k t) written, due)
    | inr other ↦
        let before : lookup k t ≡ some q = ground (arith, lookup-update r.id k f t) in
        ap (λ b. b || is_listed k rs) (sym other) ∙ h k q before due
  ]
