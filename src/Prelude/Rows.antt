-- ===== src/Prelude/Rows.antt =====
-- Tables whose rows have a numeric primary key: find, save (an upsert), update in place.
use canals.Prelude.{
  ℕ, ◌≡◌, refl, List, [], ◌∷◌, Option, none, some, false, arith, ◌==◌, if◌then◌else◌,
}
use mathlib.Core.Option

module _ {ℓ} {R : Type ℓ} (key : R → ℕ) where
  unfoldable pub find_row : ℕ → List R → Option R
  find_row k [] = none
  find_row k (r ∷ rs) = if key r == k then some r else find_row k rs

  -- A row with the key of `r` is replaced, else `r` is appended.
  unfoldable pub save_row : R → List R → List R
  save_row r [] = r ∷ []
  save_row r (s ∷ rs) = if key s == key r then r ∷ rs else s ∷ save_row r rs

  pub find_row-save_row :
      (k : ℕ) (r : R) (rs : List R)
      → find_row k (save_row r rs) ≡ (if key r == k then some r else find_row k rs)
  unfolding find_row save_row
  find_row-save_row k r [] = ground arith
  find_row-save_row k r (s ∷ rs) = ground (arith, find_row-save_row k r rs)

  pub find_row-key : (k : ℕ) (rs : List R) (r : R) → find_row k rs ≡ some r → key r ≡ k
  unfolding find_row
  find_row-key k [] r h = ground arith
  find_row-key k (s ∷ rs) r h = ground (arith, find_row-key k rs r)

  -- `UPDATE … WHERE key = k`
  unfoldable pub update_row : ℕ → (R → R) → List R → List R
  update_row k f [] = []
  update_row k f (r ∷ rs) = (if key r == k then f r else r) ∷ update_row k f rs

  pub find_row-update_row_ne :
      (j k : ℕ) (f : R → R) (rs : List R)
      → ((r : R) → key (f r) ≡ key r)
      → (j == k) ≡ false
      → find_row j (update_row k f rs) ≡ find_row j rs
  unfolding find_row update_row
  find_row-update_row_ne j k f [] keep h = refl
  find_row-update_row_ne j k f (r ∷ rs) keep h =
      ground (arith, keep r, find_row-update_row_ne j k f rs keep)

  pub find_row-update_row_self :
      (k : ℕ) (f : R → R) (rs : List R)
      → ((r : R) → key (f r) ≡ key r)
      → find_row k (update_row k f rs) ≡ Option.map f (find_row k rs)
  unfolding find_row update_row
  find_row-update_row_self k f [] keep = refl
  find_row-update_row_self k f (r ∷ rs) keep =
      ground (arith, keep r, find_row-update_row_self k f rs keep)
