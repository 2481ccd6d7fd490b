-- ===== src/Banking/Interleaving.antt =====
-- The calls of both services on the same accounts, one after another in any order: each runs in a
-- database transaction of its own.
pub mod Payments
use raf_8_banka_4_backend.Shared.{ℕ, List, ◌∷◌, [], String, ℤ}
use raf_8_banka_4_backend.Banking.Model.{CurrencyCode}
use raf_8_banka_4_backend.Banking.Store.{Store, Env, ConvertsUp}
use raf_8_banka_4_backend.Banking.Funds.{IsSound}
use raf_8_banka_4_backend.Banking.OtcFunds.Soundness
use raf_8_banka_4_backend.Banking.OtcFunds.Lifecycle.{
  Call, reserve_call, release_call, commit_call, refund_call, run_call,
}
use raf_8_banka_4_backend.Banking.InterbankCash
use raf_8_banka_4_backend.Banking.InterbankCash.{PostingMetadata}
use raf_8_banka_4_backend.Banking.InterbankCash.Soundness as CashSoundness

pub data Request : Type 0 where
  otc : Call → Request
  prepare_posting :
      Env → String → String → ℕ → CurrencyCode → ℤ → String → PostingMetadata → Request
  commit_posting rollback_posting : Env → String → Request

unfoldable pub serve : Request → Store → Store
serve (otc c) s = run_call c s
serve (prepare_posting env id number client c amount user meta) s =
    (InterbankCash.prepare env id number client c amount user meta s).1
serve (commit_posting env id) s = (InterbankCash.commit env id s).1
serve (rollback_posting env id) s = (InterbankCash.rollback env id s).1

unfoldable pub serve_all : List Request → Store → Store
serve_all [] s = s
serve_all (r ∷ rs) s = serve_all rs (serve r s)

-- The rates of a request keep positive amounts at 0 or more.
abbrev pub RatesUp : Request → Type 0
RatesUp (otc (reserve_call env id buyer seller amount c)) = ConvertsUp env
RatesUp _ = Unit

abbrev pub AllRatesUp : List Request → Type 0
AllRatesUp [] = Unit
AllRatesUp (r ∷ rs) = RatesUp r × AllRatesUp rs

serve-IsSound : (r : Request) (s : Store) → RatesUp r → IsSound s → IsSound (serve r s)
unfolding serve run_call
serve-IsSound (otc (reserve_call env id buyer seller amount c)) s up v =
    Soundness.reserve-IsSound env id buyer seller amount c s up v
serve-IsSound (otc (release_call env id)) s up v = Soundness.release-IsSound env id s v
serve-IsSound (otc (commit_call env id)) s up v = Soundness.commit-IsSound env id s v
serve-IsSound (otc (refund_call env id)) s up v = Soundness.refund-IsSound env id s v
serve-IsSound (prepare_posting env id number client c amount user meta) s up v =
    CashSoundness.prepare-IsSound env id number client c amount user meta s v
serve-IsSound (commit_posting env id) s up v = CashSoundness.commit-IsSound env id s v
serve-IsSound (rollback_posting env id) s up v = CashSoundness.rollback-IsSound env id s v

-- Over any sequence of whole calls of the two services, one after another and failed ones included, a
-- sound ledger stays sound, if the exchange rates of each reservation convert amounts of 0 or more to
-- amounts of 0 or more: no available balance falls below 0, and every balance covers what is available
-- together with all that the reserved OTC funds and the prepared interbank postings hold on the
-- account.
pub serve_all-IsSound :
    (rs : List Request) (s : Store) → AllRatesUp rs → IsSound s → IsSound (serve_all rs s)
unfolding serve_all
serve_all-IsSound [] s up v = v
serve_all-IsSound (r ∷ rs) s up v = serve_all-IsSound rs (serve r s) up.1 (serve-IsSound r s up.0 v)
