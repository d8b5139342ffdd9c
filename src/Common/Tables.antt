-- ===== src/Common/Tables.antt =====
-- The statements of SQL on one table, a list of rows.
use Prim.Native.Nat.{ℕ, zero, suc}
use mathlib.Core.Bool.{Bool, true, false, ◌&&◌}
use mathlib.Core.Option
use mathlib.Core.Option.{Option, none, some, some-injective}
use mathlib.Core.List.{List, [], ◌∷◌, ◌++◌}
use native.Mathlib.Omega.{arith}
use mathlib.Core.Path.{◌≡◌, refl}
use mathlib.Core.Logic.{◌≢◌}
use partially_distributed_sm.Common.Tests.{if◌then◌else◌}

module _ {ℓ} {A : Type ℓ} where
  -- `SELECT … WHERE p`, then `fetchone`
  abbrev pub find_row : (A → Bool) → List A → Option A
  find_row p [] = none
  find_row p (r ∷ rows) = if p r then some r else find_row p rows

  -- `UPDATE … SET f WHERE p`
  abbrev pub update_rows : (A → Bool) → (A → A) → List A → List A
  update_rows p f [] = []
  update_rows p f (r ∷ rows) = (if p r then f r else r) ∷ update_rows p f rows

  -- `DELETE … WHERE p`
  abbrev pub delete_rows : (A → Bool) → List A → List A
  delete_rows p [] = []
  delete_rows p (r ∷ rows) = let rest = delete_rows p rows in if p r then rest else r ∷ rest

  -- `cursor.rowcount`
  abbrev pub row_count : (A → Bool) → List A → ℕ
  row_count p [] = zero
  row_count p (r ∷ rows) = let rest = row_count p rows in if p r then suc rest else rest

  pub find-delete_kept :
      (p q : A → Bool) (rows : List A) (r : A)
      → find_row p rows ≡ some r
      → q r ≡ false
      → find_row p (delete_rows q rows) ≡ some r
  find-delete_kept p q [] r h k = cc
  find-delete_kept p q (x ∷ rows) r h k =
      ground (arith, find-delete_kept p q rows r, some-injective x r)

  pub find-delete_none :
      (p q : A → Bool) (rows : List A)
      → find_row p rows ≡ none
      → find_row p (delete_rows q rows) ≡ none
  find-delete_none p q [] h = refl
  find-delete_none p q (x ∷ rows) h = ground (arith, find-delete_none p q rows)

  -- No row is left that the statement deletes.
  pub find-delete_gone :
      (p q : A → Bool) (rows : List A) (r : A)
      → find_row p (delete_rows q rows) ≡ some r
      → (p r ≡ true) × (q r ≡ false)
  find-delete_gone p q [] r h = cc
  find-delete_gone p q (x ∷ rows) r h =
      ground (arith, find-delete_gone p q rows r, some-injective x r)

  pub find-append_some :
      (p : A → Bool) (rows : List A) (x r : A)
      → find_row p rows ≡ some r
      → find_row p (rows ++ x ∷ []) ≡ some r
  find-append_some p [] x r h = cc
  find-append_some p (y ∷ rows) x r h = ground (arith, find-append_some p rows x r)

  pub find-append_none :
      (p : A → Bool) (rows : List A) (x : A)
      → find_row p rows ≡ none
      → find_row p (rows ++ x ∷ []) ≡ (if p x then some x else none)
  find-append_none p [] x h = refl
  find-append_none p (y ∷ rows) x h = ground (arith, find-append_none p rows x)

  pub find_row-holds :
      (p : A → Bool) (rows : List A) (r : A) → find_row p rows ≡ some r → p r ≡ true
  find_row-holds p [] r h = cc
  find_row-holds p (x ∷ rows) r h = ground (arith, find_row-holds p rows r, some-injective x r)

  pub find-and :
      (p q : A → Bool) (rows : List A) (r : A)
      → find_row p rows ≡ some r
      → q r ≡ true
      → find_row (λ x. p x && q x) rows ≡ some r
  find-and p q [] r h k = cc
  find-and p q (x ∷ rows) r h k = ground (arith, find-and p q rows r, some-injective x r)

  pub row_count-zero :
      (p : A → Bool) (rows : List A) → find_row p rows ≡ none → row_count p rows ≡ 0
  row_count-zero p [] h = refl
  row_count-zero p (x ∷ rows) h = ground (arith, row_count-zero p rows)

  -- A row that is found is counted by any test that it passes.
  pub row_count-pos :
      (p q : A → Bool) (rows : List A) (r : A)
      → find_row p rows ≡ some r
      → q r ≡ true
      → row_count q rows ≢ 0
  row_count-pos p q [] r h k = cc
  row_count-pos p q (x ∷ rows) r h k = ground (arith, row_count-pos p q rows r, some-injective x r)

  -- A test that no row passes fails at a row that is found.
  pub find-none_at :
      (p q : A → Bool) (rows : List A) (r : A)
      → find_row p rows ≡ some r
      → find_row q rows ≡ none
      → q r ≡ false
  find-none_at p q [] r h k = cc
  find-none_at p q (x ∷ rows) r h k = ground (arith, find-none_at p q rows r, some-injective x r)

-- `COALESCE(a, b)`
abbrev pub coalesce {ℓ} : {A : Type ℓ} → Option A → Option A → Option A
coalesce none b = b
coalesce (some a) b = some a

-- An update that does not change what is searched for is found in place of its row.
pub find-update_rows {ℓ} :
    {A : Type ℓ} (p q : A → Bool) (f : A → A) (rows : List A)
    → ((r : A) → p (f r) ≡ p r)
    → find_row p (update_rows q f rows) ≡ Option.map (λ r. if q r then f r else r) (find_row p rows)
find-update_rows p q f [] same = refl
find-update_rows p q f (x ∷ rows) same = ground (arith, same x, find-update_rows p q f rows same)
