-- ===== src/Shared/Total.antt =====
-- The sum of a signed weight over the rows of a table.
use mathlib.Core.Path.{◌≡◌}
use mathlib.Core.Option.{none, some}
use mathlib.Core.List.{List, [], ◌∷◌, ◌++◌}
use raf_8_banka_4_backend.Shared.Int.{ℤ, pos, ◌+ℤ◌, ◌≤ℤ◌, int_laws}
use raf_8_banka_4_backend.Shared.Table.{All, find, save}

module _ {ℓ} {V : Type ℓ} (weight : V → ℤ) where
  unfoldable pub total : List V → ℤ
  total [] = pos 0
  total (v ∷ t) = weight v +ℤ total t

  pub total-append_one : (t : List V) (v : V) → total (t ++ v ∷ []) ≡ total t +ℤ weight v
  unfolding total
  total-append_one [] v = omega int_laws
  total-append_one (w ∷ t) v = rw (total-append_one t v) (omega int_laws)

  pub total_nonneg : (t : List V) → All (λ v. pos 0 ≤ℤ weight v) t → pos 0 ≤ℤ total t
  unfolding total
  total_nonneg [] h = omega int_laws
  total_nonneg (v ∷ t) h = omega (int_laws, h.0, total_nonneg t h.1)

module _ {ℓ κ} {K : Type κ} {V : Type ℓ} (dec : Discrete K) (key : V → K) (weight : V → ℤ) where
  -- Overwriting a row moves the sum by the difference of the two rows.
  pub total-save :
      (v : V) (t : List V) {u : V}
      → find dec key (key v) t ≡ some u
      → total weight (save dec key v t) +ℤ weight u ≡ total weight t +ℤ weight v
  unfolding total find save
  total-save v [] h = cc
  total-save v (w ∷ t) {u} h = grind (int_laws, total-save v t {u = u})

  pub total-save_new :
      (v : V) (t : List V)
      → find dec key (key v) t ≡ none
      → total weight (save dec key v t) ≡ total weight t +ℤ weight v
  unfolding total find save
  total-save_new v [] h = omega int_laws
  total-save_new v (w ∷ t) h = grind (int_laws, total-save_new v t)

  -- One row weighs no more than all rows.
  pub le-total :
      (k : K) (t : List V) {v : V}
      → All (λ u. pos 0 ≤ℤ weight u) t
      → find dec key k t ≡ some v
      → weight v ≤ℤ total weight t
  unfolding total find
  le-total k [] h e = cc
  le-total k (w ∷ t) {v} h e = grind (int_laws, le-total k t {v = v} h.1, total_nonneg weight t h.1)
