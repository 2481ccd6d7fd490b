-- ===== src/Shared/Table.antt =====
-- A database table: rows with a primary key that is a part of the row.
use mathlib.Core.Path.{◌≡◌, refl, subst}
use mathlib.Core.Logic.{ite, if_pos, if_neg}
use mathlib.Core.Option
use mathlib.Core.Option.{Option, none, some}
use mathlib.Core.List.{List, [], ◌∷◌, ◌++◌}
use native.Mathlib.Omega.{arith}

-- A property of every row.
abbrev pub All {ℓ κ} : {V : Type ℓ} → (V → Type κ) → List V → Type κ
All P [] = Unit
All P (v ∷ t) = P v × All P t

pub All-append_one {ℓ κ} :
    {V : Type ℓ} (P : V → Type κ) (t : List V) (v : V) → All P t → P v → All P (t ++ v ∷ [])
All-append_one P [] v h p = (p, tt)
All-append_one P (w ∷ t) v h p = (h.0, All-append_one P t v h.1 p)

pub All-map {ℓ κ ι} :
    {V : Type ℓ} (P : V → Type κ) (Q : V → Type ι)
    → ((v : V) → P v → Q v)
    → (t : List V) → All P t
    → All Q t
All-map P Q f [] h = tt
All-map P Q f (v ∷ t) h = (f v h.0, All-map P Q f t h.1)

pub All-always {ℓ κ} : {V : Type ℓ} (P : V → Type κ) → ((v : V) → P v) → (t : List V) → All P t
All-always P f [] = tt
All-always P f (v ∷ t) = (f v, All-always P f t)

module _ {ℓ κ} {K : Type κ} {V : Type ℓ} (dec : Discrete K) (key : V → K) where
  -- `Where("key = ?", k).First(&row)`; `none` for `gorm.ErrRecordNotFound`
  unfoldable pub find : K → List V → Option V
  find k [] = none
  find k (v ∷ t) = ite (dec (key v) k) (some v) (find k t)

  -- `Save(row)`: the row with that key is overwritten, and a new one is added at the end
  unfoldable pub save : V → List V → List V
  save v [] = v ∷ []
  save v (w ∷ t) = ite (dec (key w) (key v)) (v ∷ t) (w ∷ save v t)

  -- `Model(row).Updates(columns)`: the columns of the row with that key, if there is one
  unfoldable pub update : K → (V → V) → List V → List V
  update k f [] = []
  update k f (v ∷ t) = ite (dec (key v) k) (f v ∷ t) (v ∷ update k f t)

  pub find-key : (k : K) (t : List V) {v : V} → find k t ≡ some v → key v ≡ k
  unfolding find
  find-key k [] h = cc
  find-key k (w ∷ t) {v} h = ground (arith, find-key k t {v = v})

  pub find-save :
      (k : K) (v : V) (t : List V) → find k (save v t) ≡ ite (dec (key v) k) (some v) (find k t)
  unfolding find save
  find-save k v [] = refl
  find-save k v (w ∷ t) = ground (arith, find-save k v t)

  pub find-append :
      (k : K) (t : List V) (v : V) {u : V} → find k t ≡ some u → find k (t ++ v ∷ []) ≡ some u
  unfolding find
  find-append k [] v h = cc
  find-append k (w ∷ t) v {u} h = ground (arith, find-append k t v {u = u})

  pub find-append_new :
      (t : List V) (v : V) → find (key v) t ≡ none → find (key v) (t ++ v ∷ []) ≡ some v
  unfolding find
  find-append_new [] v h = ground arith
  find-append_new (w ∷ t) v h = ground (arith, find-append_new t v)

  -- Saving a row that is there already changes nothing.
  pub save-found : (v : V) (t : List V) → find (key v) t ≡ some v → save v t ≡ t
  unfolding find save
  save-found v [] h = cc
  save-found v (w ∷ t) h = ground (arith, save-found v t)

  pub find-update :
      (j k : K) (f : V → V) (t : List V)
      → ((v : V) → key (f v) ≡ key v)
      → find j (update k f t) ≡ ite (dec k j) (Option.map f (find j t)) (find j t)
  unfolding find update
  find-update j k f [] e = ground arith
  find-update j k f (w ∷ t) e = ground (arith, e w, find-update j k f t e)

module _ {ℓ κ ι} {K : Type κ} {V : Type ℓ} (dec : Discrete K) (key : V → K) (P : V → Type ι) where
  pub All-save : (v : V) (t : List V) → All P t → P v → All P (save dec key v t)
  unfolding save
  All-save v [] h p = (p, tt)
  All-save v (w ∷ t) h p =
      elim (dec (key w) (key v)) as (λ d. All P (ite d (v ∷ t) (w ∷ save dec key v t))) [
        | yes e ↦ (p, h.1)
        | no n ↦ (h.0, All-save v t h.1 p)
      ]

  pub All-find : (k : K) (t : List V) (v : V) → All P t → find dec key k t ≡ some v → P v
  unfolding find
  All-find k [] v h e = cc
  All-find k (w ∷ t) v h e = elim (dec (key w) k) [
    | yes p ↦ let found : some w ≡ some v = rw (if_pos (dec (key w) k) p) at e in subst P (cc) h.0
    | no n ↦ All-find k t v h.1 (rw (if_neg (dec (key w) k) n) at e)
  ]

-- A row that two keys find, overwritten by the one, is found by the other.
module _ {ℓ κ} {K : Type κ} {V : Type ℓ} (dec : Discrete K) (key key' : V → K) where
  pub find-save_other :
      (v e : V) (t : List V)
      → key v ≡ key e
      → key' v ≡ key' e
      → find dec key (key e) t ≡ some e
      → find dec key' (key' e) t ≡ some e
      → find dec key' (key' e) (save dec key v t) ≡ some v
  unfolding find save
  find-save_other v e [] p q f g = cc
  find-save_other v e (w ∷ t) p q f g = ground (arith, find-save_other v e t p q)
