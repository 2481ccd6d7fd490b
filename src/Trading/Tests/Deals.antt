-- ===== src/Trading/Tests/Deals.antt =====
-- Agreements and settlements on a small world, and the theorems at concrete inputs.
use native.Mathlib.Decide.{ℕ_discrete}
use raf_8_banka_4_backend.Shared.{
  false, true, none, some, ◌∷◌, [], ◌≡◌, refl, String_discrete, pos, ◌+ℤ◌, ◌-ℤ◌, ◌≤ℤ◌, trim_space,
  ok, find, save, within_transaction,
}
use raf_8_banka_4_backend.Trading.Model.{
  OwnerType_discrete, OtcOffer, OtcOfferStatus, AssetOwnership,
}
use raf_8_banka_4_backend.Trading.World.{
  World, Env, Statement, find_contract_row, find_offer_row, save_offer_row, find_ownership,
  upsert_ownership, Holder, Holder_discrete, sum_active_offers, times,
}
use raf_8_banka_4_backend.Trading.Contracts.{
  validate_seller_capacity_for_activation, move_shares, after_sale, after_purchase, new_average,
  no_shares,
}
use raf_8_banka_4_backend.Trading.Agreement.{
  open_offer, seller_account, check_active, offer_standing, contract_row, share_reservation_row,
  activate, activation, premium, premium_back, pay, compensate_premium_transfer, after_activation,
  pay_and_activate, finalize_agreement,
}
use raf_8_banka_4_backend.Trading.Agreement.Premium.{paid, paid_back}
use raf_8_banka_4_backend.Trading.Agreement.Shares.{
  seller_of, other_offers, activation-within_public,
}
use raf_8_banka_4_backend.Trading.Ownership.{held, part_of, all_shares, move_shares-total}
use raf_8_banka_4_backend.Trading.Tests.{calm, market, option}

abbrev offer : OtcOffer
offer = record {
  otc_offer_id = 1;
  buyer_id = 7;
  seller_id = 8;
  stock_asset_id = 4;
  amount = 3;
  price_per_stock_rsd = pos 100;
  premium_rsd = pos 20;
  settlement_date = 500;
  buyer_account_number = "444000000000000101";
  seller_account_number = some "444000000000000202";
  status = OtcOfferStatus.active;
  modified_by = 8;
  option_contract_id = none;
}

abbrev exchange : World
exchange = record market { offers = offer ∷ [] }

-- The last write of an activation fails.
abbrev broken : Env
broken = record calm { fails = λ st. elim st [ Statement.save_offer ↦ true | _ ↦ false ] }

abbrev undisturbed : World → World
undisturbed w = w

-- The premium is paid, and paid back.
abbrev repaid : World
repaid = paid_back offer "444000000000000202" (paid undisturbed offer "444000000000000202" exchange)

-- The same request has been served in between.
abbrev same_request : World → World
same_request w = (finalize_agreement calm calm undisturbed 1 7 w).1

-- Where the same request is served between the two transactions, the premium is paid twice.
pays_twice :
    (finalize_agreement calm calm same_request 1 7 exchange).1.premiums
    ≡ premium offer "444000000000000202" ∷ premium offer "444000000000000202" ∷ []
unfolding offer_standing check_active seller_account validate_seller_capacity_for_activation
    contract_row share_reservation_row activate activation premium premium_back pay
    compensate_premium_transfer after_activation pay_and_activate finalize_agreement find_offer_row
    save_offer_row find_ownership upsert_ownership find_contract_row sum_active_offers
    Holder_discrete OwnerType_discrete find save ℕ_discrete String_discrete within_transaction
    trim_space ◌+ℤ◌
pays_twice = refl

stands : offer_standing calm 1 exchange ≡ (ok (open_offer offer "444000000000000202"), exchange)
unfolding offer_standing check_active seller_account validate_seller_capacity_for_activation
    contract_row share_reservation_row activate activation premium premium_back pay
    compensate_premium_transfer after_activation pay_and_activate finalize_agreement find_offer_row
    save_offer_row find_ownership upsert_ownership find_contract_row sum_active_offers
    Holder_discrete OwnerType_discrete find save ℕ_discrete String_discrete within_transaction
    trim_space ◌+ℤ◌
stands = refl

activates : activation calm 1 7 exchange ≡ (ok 4, (activation calm 1 7 exchange).1)
unfolding offer_standing check_active seller_account validate_seller_capacity_for_activation
    contract_row share_reservation_row activate activation premium premium_back pay
    compensate_premium_transfer after_activation pay_and_activate finalize_agreement find_offer_row
    save_offer_row find_ownership upsert_ownership find_contract_row sum_active_offers
    Holder_discrete OwnerType_discrete find save ℕ_discrete String_discrete within_transaction
    trim_space ◌+ℤ◌
activates = refl

activation-within_public_example :
    (owner : AssetOwnership) × (find_ownership
        (seller_of offer)
        (activation calm 1 7 exchange).1.ownerships
      ≡ some owner)
    × (owner.reserved_amount +ℤ other_offers offer exchange ≤ℤ owner.public_amount)
activation-within_public_example = activation-within_public calm 1 7 exchange stands activates

moves : move_shares calm option market ≡ (ok tt, (move_shares calm option market).1)
unfolding move_shares after_sale after_purchase new_average no_shares times find_ownership
    upsert_ownership Holder_discrete OwnerType_discrete find save ℕ_discrete ◌+ℤ◌ ◌-ℤ◌
moves = refl

abbrev settled_market : World
settled_market = (move_shares calm option market).1

move_shares-total_example :
    ((k : Holder)
      → held k settled_market.ownerships +ℤ part_of option 8 k
        ≡ held k market.ownerships +ℤ part_of option 7 k)
    × (all_shares 4 settled_market.ownerships ≡ all_shares 4 market.ownerships)
move_shares-total_example = move_shares-total calm option market moves
