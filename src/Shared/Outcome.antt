-- ===== src/Shared/Outcome.antt =====
-- The outcome of a service call over a state: common/pkg/errors and the database transaction.
use Prim.Native.String.{String}
use mathlib.Core.Path.{◌≡◌, refl}
use mathlib.Core.Logic.{◌⊎◌, inl, inr}
use mathlib.Core.Bool.{Bool}
use mathlib.Core.Option.{Option, none, some}
use native.Mathlib.Omega.{arith}
use raf_8_banka_4_backend.Shared.Tests.{if◌then◌else◌}

-- `AppError` by its HTTP status, with the message; `internal` wraps an error of a callee, and
-- `driver` is an error of the database that is handed on as it is.
pub data AppError : Type 0 where
  bad_request not_found conflict : String → AppError
  internal service_unavailable driver : AppError

pub data Result {ℓ} (A : Type ℓ) : Type ℓ where
  ok : A → Result A
  err : AppError → Result A

pub Result-cases {ℓ} :
    {A : Type ℓ} (r : Result A) → ((a : A) × (r ≡ ok a)) ⊎ ((e : AppError) × (r ≡ err e))
Result-cases (ok a) = inl (a, refl)
Result-cases (err e) = inr (e, refl)

-- A call that reads and writes the state `S`.
abbrev pub Action {ℓ κ} : Type ℓ → Type κ → Type (ℓ ⊔ κ)
Action S A = S → Result A × S

infixl 5 ◌>>=◌ ◌>>◌
abbrev pub ◌>>=◌ {ℓ κ ι} :
    {S : Type ℓ} {A : Type κ} {B : Type ι} → Action S A → (A → Action S B) → Action S B
◌>>=◌ m f s = let (r, t) = m s in elim r [ ok a ↦ f a t | err e ↦ (err e, t) ]

abbrev pub ◌>>◌ {ℓ κ} : {S : Type ℓ} {B : Type κ} → Action S (Unit {0}) → Action S B → Action S B
m >> k = m >>= λ _. k

module _ {ℓ κ} {S : Type ℓ} {A : Type κ} where
  abbrev pub pure : A → Action S A
  pure a s = (ok a, s)

  abbrev pub raise : AppError → Action S A
  raise e s = (err e, s)

  -- A row that a query has found, or the error for a missing one.
  abbrev pub or_raise : Option A → AppError → Action S A
  or_raise none e = raise e
  or_raise (some a) e = pure a

  -- A query, which fails if the database does.
  abbrev pub query : Bool → (S → A) → Action S A
  query failed f s = (if failed then err internal else ok (f s), s)

  -- A query for one row, which fails if the database does, and where no row is found.
  abbrev pub load : Bool → (S → Option A) → AppError → Action S A
  load failed f e s =
      (if failed then err internal else elim (f s) [ none ↦ err e | some a ↦ ok a ], s)

  -- `return err` of a callee that keeps no state
  abbrev pub lift : Result A → Action S A
  lift r s = (r, s)

  -- `WithinTransaction`, outermost: an error restores the state, and so does a failing commit.
  unfoldable pub within_transaction : Bool → Action S A → Action S A
  within_transaction failed m s =
      let (r, t) = m s in
      elim r [ ok a ↦ if failed then (err driver, s) else (ok a, t) | err e ↦ (err e, s) ]

module _ {ℓ} {S : Type ℓ} where
  abbrev pub raise_if : Bool → AppError → Action S (Unit {0})
  raise_if c e s = (if c then err e else ok tt, s)

  -- A write, which fails if the database does.
  abbrev pub exec : Bool → (S → S) → Action S (Unit {0})
  exec failed f s = (if failed then err internal else ok tt, if failed then s else f s)

module _ {ℓ κ} {S : Type ℓ} {A : Type κ} where
  -- A transaction that fails leaves no trace.
  pub within_transaction_err :
      (failed : Bool) (m : Action S A) (s : S) {e : AppError}
      → (within_transaction failed m s).0 ≡ err e
      → (within_transaction failed m s).1 ≡ s
  unfolding within_transaction
  within_transaction_err failed m s h = ground arith

  -- A transaction that succeeds has run its body.
  pub within_transaction_ok :
      (failed : Bool) (m : Action S A) (s : S) {a : A} {t : S}
      → within_transaction failed m s ≡ (ok a, t)
      → m s ≡ (ok a, t)
  unfolding within_transaction
  within_transaction_ok failed m s h = ground arith
