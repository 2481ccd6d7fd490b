-- ===== src/Trading/Agreement.antt =====
-- services/trading-service/internal/service/otc_deal_processing_service.go: FinalizeAgreement, which
-- makes an accepted offer an option contract. The premium is paid between two transactions, and other
-- requests may run between them too.
pub mod Premium
pub mod Shares
use raf_8_banka_4_backend.Shared.{
  ℕ, suc, ◌==◌, Bool, true, false, not, String, text_eq, trim_space, Option, none, some, List, [],
  ◌∷◌, ◌++◌, ℤ, pos, ◌+ℤ◌, if◌then◌else◌, Action, Result, ok, err, AppError, bad_request, not_found,
  internal, driver, ◌>>=◌, ◌>>◌, pure, raise, raise_if, lift, load, query, exec, within_transaction,
}
use raf_8_banka_4_backend.Trading.Model.{
  OtcOffer, OtcOfferStatus, OtcOptionContract, OtcOptionContractStatus, OtcShareReservation,
  OtcShareReservationStatus, OwnerType, AssetOwnership,
}
use raf_8_banka_4_backend.Trading.World.{
  World, Env, PremiumPayment, find_contract, find_offer, find_seller, upsert_seller,
  create_contract, create_reservation, save_offer, commit_step, find_contract_row, find_offer_row,
  save_offer_row, find_ownership, upsert_ownership, client_holder,
}
use raf_8_banka_4_backend.Trading.Contracts.{validate_seller_capacity_for_activation}

-- An offer has its contract, or it can be given one; then the seller's account is known.
pub data Standing : Type 0 where
  finalized : ℕ → Standing
  open_offer : OtcOffer → String → Standing

-- The seller's account number of an offer.
unfoldable pub seller_account : OtcOffer → Result String
seller_account o = elim o.seller_account_number [
  | none ↦ err (bad_request "seller account number is missing")
  | some a ↦
      if text_eq (trim_space a) ""
      then err (bad_request "seller account number is missing")
      else ok a
]

-- An offer that is active.
unfoldable pub check_active : Env → OtcOffer → Action World Standing
check_active env o = do
  a ← lift (seller_account o)
  validate_seller_capacity_for_activation env o
  pure (open_offer o a)

-- The checks that both transactions begin with.
unfoldable pub offer_standing : Env → ℕ → Action World Standing
offer_standing env i = do
  o ← load (env.fails find_offer) (λ s. find_offer_row i s.offers) (not_found "offer not found")
  elim o.status [
    | OtcOfferStatus.active ↦ check_active env o
    | OtcOfferStatus.rejected ↦ raise (bad_request "offer is not active")
    | OtcOfferStatus.accepted ↦ elim o.option_contract_id [
      | some c ↦ pure (finalized c)
      | none ↦ raise (bad_request "offer is not active")
    ]
  ]

unfoldable pub contract_row : OtcOffer → String → ℕ → OtcOptionContract
contract_row o account id = record {
  otc_option_contract_id = id;
  otc_offer_id = o.otc_offer_id;
  buyer_id = o.buyer_id;
  seller_id = o.seller_id;
  stock_asset_id = o.stock_asset_id;
  amount = o.amount;
  strike_price_rsd = o.price_per_stock_rsd;
  premium_rsd = o.premium_rsd;
  settlement_date = o.settlement_date;
  buyer_account_number = o.buyer_account_number;
  seller_account_number = account;
  status = OtcOptionContractStatus.active;
}

unfoldable pub share_reservation_row : OtcOffer → ℕ → OtcShareReservation
share_reservation_row o id = record {
  contract_id = id;
  seller_id = o.seller_id;
  owner_type = OwnerType.client;
  stock_asset_id = o.stock_asset_id;
  reserved_amount = pos o.amount;
  status = OtcShareReservationStatus.active;
}

-- The writes of the second transaction: the contract, the reserved shares and the accepted offer.
unfoldable pub activate : Env → OtcOffer → String → ℕ → Action World ℕ
activate env o account accepted_by = do
  id ← λ s. (ok s.next_contract_id, s)
  exec (env.fails create_contract) (λ s. record s {
    contracts = s.contracts ++ contract_row o account id ∷ [];
    next_contract_id = suc id;
  })
  exec (env.fails create_reservation)
      (λ s. record s { reservations = s.reservations ++ share_reservation_row o id ∷ [] })
  owner ←
      load (env.fails find_seller)
        (λ s. find_ownership (client_holder o.seller_id o.stock_asset_id) s.ownerships)
        (bad_request "seller does not own the offered stock")
  let grown : AssetOwnership = record owner {
    reserved_amount = owner.reserved_amount +ℤ pos o.amount;
  }
  exec (env.fails upsert_seller)
      (λ s. record s { ownerships = upsert_ownership grown s.ownerships })
  let accepted : OtcOffer = record o {
    status = OtcOfferStatus.accepted;
    option_contract_id = some id;
    modified_by = accepted_by;
  }
  exec (env.fails save_offer) (λ s. record s { offers = save_offer_row accepted s.offers })
  pure id

-- The closure of the second transaction.
unfoldable pub activation : Env → ℕ → ℕ → Action World ℕ
activation env i accepted_by = do
  standing ← offer_standing env i
  elim standing [ finalized c ↦ pure c | open_offer o account ↦ activate env o account accepted_by ]

unfoldable pub premium : OtcOffer → String → PremiumPayment
premium o account = record {
  payer = o.buyer_account_number;
  recipient = account;
  amount = o.premium_rsd;
}

-- The payment of `compensatePremiumTransfer`
unfoldable pub premium_back : OtcOffer → String → PremiumPayment
premium_back o account = record {
  payer = account;
  recipient = o.buyer_account_number;
  amount = o.premium_rsd;
}

-- `CreatePaymentWithoutVerification`; its error is wrapped as an internal one.
unfoldable pub pay : Env → PremiumPayment → Action World (Unit {0})
pay env p s =
    if env.pays s.premiums p
    then (ok tt, record s { premiums = s.premiums ++ p ∷ [] })
    else (err internal, s)

-- `compensatePremiumTransfer`
unfoldable pub compensate_premium_transfer : Env → OtcOffer → String → Action World (Unit {0})
compensate_premium_transfer env o account = pay env (premium_back o account)

-- What follows the second transaction: the contract, or the premium is paid back.
unfoldable pub after_activation :
    Env → OtcOffer → String → Result ℕ → Action World (Option OtcOptionContract)
after_activation env o account (ok c) =
    query (env.fails find_contract) (λ s. find_contract_row c s.contracts)
after_activation env o account (err x) = do compensate_premium_transfer env o account; raise x

-- The premium is paid, other requests run, and the offer is activated.
unfoldable pub pay_and_activate :
    Env
    → Env
    → (World → World)
    → OtcOffer
    → String
    → ℕ
    → ℕ
    → Action World (Option OtcOptionContract)
pay_and_activate first second between o account i accepted_by = do
  pay first (premium o account)
  outcome ← λ s.
      let (r, t) =
        within_transaction (second.fails commit_step) (activation second i accepted_by)
          (between s) in
      (ok r, t)
  after_activation second o account outcome

-- `FinalizeAgreement` with the environments of its two transactions and what other requests do between
-- them, without the record of the premium for the tax
unfoldable pub finalize_agreement :
    Env → Env → (World → World) → ℕ → ℕ → Action World (Option OtcOptionContract)
finalize_agreement first second between i accepted_by = do
  standing ← within_transaction (first.fails commit_step) (offer_standing first i)
  elim standing [
    | open_offer o account ↦ pay_and_activate first second between o account i accepted_by
    | finalized c ↦ if c == 0 then raise internal else λ s.
        (if first.fails find_contract then err driver else ok (find_contract_row c s.contracts), s)
  ]
