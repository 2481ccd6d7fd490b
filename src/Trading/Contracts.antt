-- ===== src/Trading/Contracts.antt =====
-- services/trading-service/internal/service/otc_deal_processing_service.go: the checks of a contract
-- and of the seller's shares, the expiry of a contract, and the settlement of one.
use raf_8_banka_4_backend.Shared.{
  ℕ, ltb, Bool, true, false, not, ◌||◌, Option, none, some, ℤ, pos, ◌+ℤ◌, ◌-ℤ◌, ltb_ℤ, leb_ℤ,
  pos_part, if◌then◌else◌, Action, Result, ok, err, bad_request, not_found, conflict, driver, ◌>>=◌,
  ◌>>◌, pure, raise_if, load, query, exec, within_transaction,
}
use Prim.Native.Nat.{◌/◌}
use raf_8_banka_4_backend.Trading.Model.{
  AssetOwnership, OtcOffer, OtcOptionContract, OtcOptionContractStatus, OtcShareReservation,
  OtcShareReservationStatus, OwnerType,
}
use raf_8_banka_4_backend.Trading.World.{
  World, Env, find_contract, find_capacity, sum_reserved, find_offers, find_seller, upsert_seller,
  find_buyer, upsert_buyer, expire_find_reservation, expire_find_seller, expire_upsert_seller,
  expire_save_reservation, expire_save_contract, commit_step, find_contract_row, save_contract_row,
  find_reservation_row, save_reservation_row, find_ownership, upsert_ownership, client_holder,
  sum_active_reserved, sum_active_offers, times,
}

-- Is the settlement date after now?
abbrev pub settles_later : Env → OtcOptionContract → Bool
settles_later env c = ltb env.now c.settlement_date

-- `shouldExpireContract`
unfoldable pub should_expire_contract : Env → OtcOptionContract → Bool
should_expire_contract env c = elim c.status [
  | OtcOptionContractStatus.active ↦ not (settles_later env c)
  | _ ↦ false
]

-- `validateContractForExecution`
unfoldable pub validate_contract_for_execution : Env → OtcOptionContract → Result (Unit {0})
validate_contract_for_execution env c = elim c.status [
  | OtcOptionContractStatus.exercised ↦ err (conflict "OTC contract has already been exercised")
  | OtcOptionContractStatus.cancelled ↦ err (bad_request "OTC contract is cancelled")
  | OtcOptionContractStatus.expired ↦ err (bad_request "OTC contract has expired")
  | OtcOptionContractStatus.active ↦
      if not (settles_later env c) then err (bad_request "OTC contract has expired") else ok tt
]

-- `if a >= b { a -= b } else { a = 0 }`
abbrev pub take_down : ℤ → ℤ → ℤ
take_down a b = if leb_ℤ b a then a -ℤ b else pos 0

abbrev write_ownership : Bool → AssetOwnership → Action World (Unit {0})
write_ownership failed o =
    exec failed (λ s. record s { ownerships = upsert_ownership o s.ownerships })

-- The part of `expireLockedContract` for an active reservation: its shares are free again.
unfoldable pub free_reservation :
    Env → OtcOptionContract → OtcShareReservation → Action World (Unit {0})
free_reservation env c r = do
  owner ←
      query (env.fails expire_find_seller)
        (λ s. find_ownership (client_holder c.seller_id c.stock_asset_id) s.ownerships)
  elim owner [
    | none ↦ pure tt
    | some o ↦
        write_ownership (env.fails expire_upsert_seller)
          (record o { reserved_amount = take_down o.reserved_amount r.reserved_amount })
  ]
  exec (env.fails expire_save_reservation) (λ s. record s {
    reservations =
        save_reservation_row (record r { status = OtcShareReservationStatus.released })
          s.reservations;
  })

-- `expireLockedContract`: the error of its last statement is handed on as it is.
unfoldable pub expire_locked_contract : Env → OtcOptionContract → Action World (Unit {0})
expire_locked_contract env c = do
  found ←
      query (env.fails expire_find_reservation)
        (λ s. find_reservation_row c.otc_option_contract_id s.reservations)
  elim found [
    | none ↦ pure tt
    | some r ↦ elim r.status [
      | OtcShareReservationStatus.active ↦ free_reservation env c r
      | _ ↦ pure tt
    ]
  ]
  raise_if (env.fails expire_save_contract) driver
  exec false (λ s. record s {
    contracts =
        save_contract_row (record c { status = OtcOptionContractStatus.expired }) s.contracts;
  })

-- The closure of `expireContract`: whether the contract has expired now.
unfoldable pub expire_if_due : Env → ℕ → Action World Bool
expire_if_due env i = do
  c ←
      load (env.fails find_contract) (λ s. find_contract_row i s.contracts)
        (not_found "OTC contract not found")
  if not (should_expire_contract env c)
      then pure false
      else do expire_locked_contract env c; pure true

-- `expireContract`, without the record of the loss for the tax
unfoldable pub expire_contract : Env → ℕ → Action World Bool
expire_contract env i = within_transaction (env.fails commit_step) (expire_if_due env i)

-- `ensureSellerCapacityForSettlement`
unfoldable pub ensure_seller_capacity_for_settlement :
    Env → OtcOptionContract → OtcShareReservation → Action World (Unit {0})
ensure_seller_capacity_for_settlement env c r = do
  owner ←
      load (env.fails find_capacity)
        (λ s. find_ownership (client_holder c.seller_id c.stock_asset_id) s.ownerships)
        (bad_request "seller does not own the reserved stock")
  others ← query (env.fails sum_reserved) (λ s.
      sum_active_reserved (client_holder c.seller_id c.stock_asset_id) c.otc_option_contract_id
        s.reservations)
  raise_if
      (ltb_ℤ owner.amount r.reserved_amount || ltb_ℤ (owner.amount -ℤ r.reserved_amount) others)
      (bad_request "seller no longer has enough shares to settle this OTC contract")

-- `validateSellerCapacityForActivation`
unfoldable pub validate_seller_capacity_for_activation : Env → OtcOffer → Action World (Unit {0})
validate_seller_capacity_for_activation env o = do
  owner ←
      load (env.fails find_capacity)
        (λ s. find_ownership (client_holder o.seller_id o.stock_asset_id) s.ownerships)
        (bad_request "seller does not own the offered stock")
  committed ←
      query (env.fails find_offers)
        (λ s. sum_active_offers o.seller_id o.stock_asset_id o.otc_offer_id s.offers)
  raise_if (ltb_ℤ owner.public_amount (owner.reserved_amount +ℤ committed +ℤ pos o.amount))
      (bad_request "seller does not have enough public shares")

-- The seller's row after `contract.Amount` shares are sold.
unfoldable pub after_sale : OtcOptionContract → AssetOwnership → AssetOwnership
after_sale c o = record o {
  amount = o.amount -ℤ pos c.amount;
  public_amount = take_down o.public_amount (pos c.amount);
  reserved_amount = take_down o.reserved_amount (pos c.amount);
}

-- The row of a buyer who holds none of the stock yet.
unfoldable pub no_shares : OtcOptionContract → AssetOwnership
no_shares c = record {
  user_id = c.buyer_id;
  owner_type = OwnerType.client;
  asset_id = c.stock_asset_id;
  amount = pos 0;
  avg_buy_price_rsd = pos 0;
  public_amount = pos 0;
  reserved_amount = pos 0;
}

-- The average price of the shares held and the shares bought, rounded down.
unfoldable pub new_average : OtcOptionContract → AssetOwnership → ℤ
new_average c o =
    let amount = o.amount +ℤ pos c.amount in
    let cost = times (pos_part o.amount) o.avg_buy_price_rsd +ℤ times c.amount c.strike_price_rsd in
    if ltb_ℤ (pos 0) amount then pos (pos_part cost / pos_part amount) else o.avg_buy_price_rsd

unfoldable pub after_purchase : OtcOptionContract → AssetOwnership → AssetOwnership
after_purchase c o = record o {
  amount = o.amount +ℤ pos c.amount;
  avg_buy_price_rsd = new_average c o;
}

abbrev pub or_else : Option AssetOwnership → AssetOwnership → AssetOwnership
or_else none o = o
or_else (some p) o = p

-- The shares of a contract move from the seller to the buyer.
unfoldable pub move_shares : Env → OtcOptionContract → Action World (Unit {0})
move_shares env c = do
  owner ←
      load (env.fails find_seller)
        (λ s. find_ownership (client_holder c.seller_id c.stock_asset_id) s.ownerships)
        (bad_request "seller does not own the reserved stock")
  write_ownership (env.fails upsert_seller) (after_sale c owner)
  buyer ←
      query (env.fails find_buyer)
        (λ s. find_ownership (client_holder c.buyer_id c.stock_asset_id) s.ownerships)
  write_ownership (env.fails upsert_buyer) (after_purchase c (or_else buyer (no_shares c)))
