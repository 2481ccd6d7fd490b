-- ===== src/Trading/Agreement/Premium.antt =====
-- otc_deal_processing_service.go: the premium of an agreement, which is paid back when the agreement
-- fails.
use raf_8_banka_4_backend.Shared.{
  ℕ, ◌≡◌, String, ℤ, some, [], ◌∷◌, ◌++◌, Result, within_transaction,
}
use raf_8_banka_4_backend.Trading.Model.{OtcOffer}
use raf_8_banka_4_backend.Trading.World.{World, Env, PremiumPayment, commit_step, find_offer_row}
use raf_8_banka_4_backend.Trading.Agreement.{activation}

abbrev pub payment : String → String → ℤ → PremiumPayment
payment payer recipient amount = record { payer = payer; recipient = recipient; amount = amount }

-- The world once the buyer has paid the premium to the seller's account and the other requests have run.
abbrev pub paid : (World → World) → OtcOffer → String → World → World
paid between o account s = between (record s {
  premiums = s.premiums ++ payment o.buyer_account_number account o.premium_rsd ∷ [];
})

-- The world once that account has paid it back.
abbrev pub paid_back : OtcOffer → String → World → World
paid_back o account s = record s {
  premiums = s.premiums ++ payment account o.buyer_account_number o.premium_rsd ∷ [];
}

module _ (first second : Env) (between : World → World) (o : OtcOffer) (account : String)
    (i accepted_by : ℕ) (s : World) where
  abbrev second_transaction : Result ℕ × World
  second_transaction =
      within_transaction (second.fails commit_step) (activation second i accepted_by)
        (paid between o account s)

-- The seller's account of an offer that is in the table.
abbrev pub IsOffered : ℕ → OtcOffer → String → World → Type 0
IsOffered i o account s =
    (find_offer_row i s.offers ≡ some o) × (o.seller_account_number ≡ some account)
