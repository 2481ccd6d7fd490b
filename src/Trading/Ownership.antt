-- ===== src/Trading/Ownership.antt =====
-- otc_deal_processing_service.go: the shares of an asset while a contract is settled. Held counts those
-- of one owner, Total those of all owners.
mod Held
mod Total
pub use Held.{amount_of, held, part_of}
pub use Total.{all_shares}
use raf_8_banka_4_backend.Shared.{
  ℕ, ite, if_pos, if_neg, ◌==◌, ◌≡◌, refl, inl, inr, sym, ap, ◌∙◌, subst, Option, none, some,
  Option-cases, List, ℤ, pos, ◌+ℤ◌, ◌-ℤ◌, int_laws, same_parts, arith, if◌then◌else◌, ok, find-key,
  total, total-save, total-save_new, find-save,
}
use raf_8_banka_4_backend.Trading.Model.{OtcOptionContract, AssetOwnership}
use raf_8_banka_4_backend.Trading.World.{
  World, Env, find_ownership, upsert_ownership, Holder, Holder_discrete, holder_of, client_holder,
}
use raf_8_banka_4_backend.Trading.Contracts.{
  move_shares, after_sale, after_purchase, no_shares, or_else,
}
use Held.{sale-held, purchase-held}
use Total.{sale-total, purchase-total}

-- The rows after the two writes.
move_shares-ok :
    (env : Env) (c : OtcOptionContract) (s : World) {t : World}
    → move_shares env c s ≡ (ok tt, t)
    → (owner : AssetOwnership) × (find_ownership
          (client_holder c.seller_id c.stock_asset_id)
          s.ownerships
        ≡ some owner)
      × (t.ownerships
          ≡ upsert_ownership
              (after_purchase c (
                or_else
                  (find_ownership
                    (client_holder c.buyer_id c.stock_asset_id)
                    (upsert_ownership (after_sale c owner) s.ownerships))
                  (no_shares c)))
              (upsert_ownership (after_sale c owner) s.ownerships))
unfolding move_shares
move_shares-ok env c s h =
    elim (Option-cases (find_ownership (client_holder c.seller_id c.stock_asset_id) s.ownerships)) [
      | inl missing ↦ absurd (ground arith)
      | inr (owner, found) ↦ (owner, found, ground arith)
    ]

moved : (x y z g r : ℤ) → x ≡ y +ℤ r → y +ℤ g ≡ z → x +ℤ g ≡ z +ℤ r
moved x y z g r h k = omega (int_laws, same_parts h, same_parts k)

-- A settlement takes the shares of the contract from the seller's row and adds them to the buyer's,
-- also where the buyer held none before; every other owner keeps what they had, and the owners of the
-- asset hold together as many shares as before.
pub move_shares-total :
    (env : Env) (c : OtcOptionContract) (s : World) {t : World}
    → move_shares env c s ≡ (ok tt, t)
    → ((k : Holder)
        → held k t.ownerships +ℤ part_of c c.seller_id k
          ≡ held k s.ownerships +ℤ part_of c c.buyer_id k)
      × (all_shares c.stock_asset_id t.ownerships ≡ all_shares c.stock_asset_id s.ownerships)
move_shares-total env c s h =
    let (owner, found, rows) = move_shares-ok env c s h in
    let sold_rows = upsert_ownership (after_sale c owner) s.ownerships in
    (
      λ k.
          moved _ _ _ _ _ (ap (held k) rows ∙ purchase-held c sold_rows k)
            (sale-held c s.ownerships owner k found),
      ap (all_shares c.stock_asset_id) rows
          ∙ purchase-total c sold_rows
          ∙ sale-total c s.ownerships owner found,
    )
