-- ===== src/Interbank/Balance.antt =====
-- message_processor.go, balanceFailure: the totals of the assets, in one pass over the postings,
-- against the sum of the postings of one asset.
use raf_8_banka_4_backend.Shared.{
  String, ◌≡◌, ◌≢◌, refl, inl, inr, false, none, some, List, [], ◌∷◌, ℤ, pos, ◌+ℤ◌, int_laws,
  same_parts, text_eq, if◌then◌else◌, All, Bool-cases, Option-cases, arith,
}
use raf_8_banka_4_backend.Interbank.Model.{Posting, Transaction}
use raf_8_banka_4_backend.Interbank.Assets.{
  balance_key, add_total, any_nonzero, check_totals, balance_failure,
}

-- The sum of the amounts of the postings of the asset with a key.
unfoldable pub sum_of : String → List Posting → ℤ
sum_of k [] = pos 0
sum_of k (p ∷ ps) =
    let rest = sum_of k ps in
    elim (balance_key p.asset) [
      | none ↦ rest
      | some j ↦ if text_eq j k then p.amount +ℤ rest else rest
    ]

lookup : String → List (String × ℤ) → ℤ
lookup k [] = pos 0
lookup k ((j, a) ∷ t) = let rest = lookup k t in if text_eq j k then a else rest

lookup-add_total :
    (k j : String) (a : ℤ) (t : List (String × ℤ))
    → lookup k (add_total j a t) ≡ (if text_eq j k then lookup k t +ℤ a else lookup k t)
unfolding lookup add_total
lookup-add_total k j a [] = grind int_laws
lookup-add_total k j a ((i, b) ∷ t) = grind (int_laws, lookup-add_total k j a t)

lookup_zero : (k : String) (t : List (String × ℤ)) → any_nonzero t ≡ false → lookup k t ≡ pos 0
unfolding lookup any_nonzero
lookup_zero k [] h = refl
lookup_zero k ((i, b) ∷ t) h = grind (int_laws, lookup_zero k t)

abbrev pub HasKey : Posting → Type 0
HasKey p = balance_key p.asset ≢ none

check_totals-All :
    (ps : List Posting) (totals : List (String × ℤ)) → check_totals ps totals ≡ none → All HasKey ps
unfolding check_totals
check_totals-All [] totals h = tt
check_totals-All (p ∷ ps) totals h = elim (Option-cases (balance_key p.asset)) [
  | inl e ↦ cc
  | inr (k, e) ↦
      let next : check_totals ps (add_total k p.amount totals) ≡ none = cc in
      (λ missing. cc, check_totals-All ps (add_total k p.amount totals) next)
]

check_totals-sum_of :
    (k : String) (ps : List Posting) (totals : List (String × ℤ))
    → check_totals ps totals ≡ none
    → lookup k totals +ℤ sum_of k ps ≡ pos 0
unfolding check_totals sum_of
check_totals-sum_of k [] totals h = elim (Bool-cases (any_nonzero totals)) [
  | inl e ↦ cc
  | inr e ↦ grind (int_laws, lookup_zero k totals e)
]
check_totals-sum_of k (p ∷ ps) totals h = elim (Option-cases (balance_key p.asset)) [
  | inl e ↦ cc
  | inr (j, e) ↦
      let next : check_totals ps (add_total j p.amount totals) ≡ none = cc in
      let rest = same_parts (check_totals-sum_of k ps (add_total j p.amount totals) next) in
      let added = lookup-add_total k j p.amount totals in
      elim (Bool-cases (text_eq j k)) [
        | inl same ↦
            let now : sum_of k (p ∷ ps) ≡ p.amount +ℤ sum_of k ps = ground arith in
            let later : lookup k (add_total j p.amount totals) ≡ lookup k totals +ℤ p.amount =
              ground arith in
            omega (int_laws, rest, same_parts now, same_parts later)
        | inr other ↦
            let now : sum_of k (p ∷ ps) ≡ sum_of k ps = ground arith in
            let later : lookup k (add_total j p.amount totals) ≡ lookup k totals = ground arith in
            omega (int_laws, rest, same_parts now, same_parts later)
      ]
]

-- A transaction that the balance check lets through has postings, each of a known asset, and the
-- amounts of every single asset sum to zero.
pub balance_failure-sum_of :
    (tx : Transaction)
    → balance_failure tx ≡ none
    → (tx.postings ≢ []) × All HasKey tx.postings × ((k : String) → sum_of k tx.postings ≡ pos 0)
unfolding balance_failure lookup
balance_failure-sum_of tx h =
    let checked : check_totals tx.postings [] ≡ none = grind arith in
    (
      λ e. cc,
      check_totals-All tx.postings [] checked,
      λ k. omega (int_laws, same_parts (check_totals-sum_of k tx.postings [] checked)),
    )
