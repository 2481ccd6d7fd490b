-- ===== src/Trading/Ownership/Total.antt =====
-- The shares of one asset over all owners, before and after a sale and a purchase.
use raf_8_banka_4_backend.Shared.{
  ℕ, ◌==◌, ◌≡◌, refl, inl, inr, sym, ap, ◌∙◌, subst, none, some, Option-cases, List, ℤ, pos, ◌+ℤ◌,
  ◌-ℤ◌, int_laws, same_parts, arith, if◌then◌else◌, total, total-save, total-save_new,
}
use raf_8_banka_4_backend.Trading.Model.{OtcOptionContract, AssetOwnership}
use raf_8_banka_4_backend.Trading.World.{
  find_ownership, upsert_ownership, Holder_discrete, holder_of, client_holder,
}
use raf_8_banka_4_backend.Trading.Contracts.{after_sale, after_purchase, no_shares, or_else}
use raf_8_banka_4_backend.Trading.Ownership.Held.{find_ownership-holder}

-- The shares of an asset in one row.
abbrev pub shares : ℕ → AssetOwnership → ℤ
shares asset o = if o.asset_id == asset then o.amount else pos 0

abbrev pub all_shares : ℕ → List AssetOwnership → ℤ
all_shares asset t = total (shares asset) t

upsert-total :
    (asset : ℕ) (v : AssetOwnership) (t : List AssetOwnership) {u : AssetOwnership}
    → find_ownership (holder_of v) t ≡ some u
    → all_shares asset (upsert_ownership v t) +ℤ shares asset u
      ≡ all_shares asset t +ℤ shares asset v
unfolding find_ownership upsert_ownership
upsert-total asset v t found = total-save Holder_discrete holder_of (shares asset) v t found

upsert-total_new :
    (asset : ℕ) (v : AssetOwnership) (t : List AssetOwnership)
    → find_ownership (holder_of v) t ≡ none
    → all_shares asset (upsert_ownership v t) ≡ all_shares asset t +ℤ shares asset v
unfolding find_ownership upsert_ownership
upsert-total_new asset v t missing =
    total-save_new Holder_discrete holder_of (shares asset) v t missing

shares-own : (asset : ℕ) (o : AssetOwnership) → o.asset_id ≡ asset → shares asset o ≡ o.amount
shares-own asset o e = ground arith

sold : (x t a q : ℤ) → x +ℤ a ≡ t +ℤ (a -ℤ q) → x +ℤ q ≡ t
sold x t a q h = omega (int_laws, same_parts h)

bought : (x t a q : ℤ) → x +ℤ a ≡ t +ℤ (a +ℤ q) → x ≡ t +ℤ q
bought x t a q h = omega (int_laws, same_parts h)

-- A sale and a purchase move the shares of the contract out of and into the total.
pub sale-total :
    (c : OtcOptionContract) (t : List AssetOwnership) (owner : AssetOwnership)
    → find_ownership (client_holder c.seller_id c.stock_asset_id) t ≡ some owner
    → all_shares c.stock_asset_id (upsert_ownership (after_sale c owner) t) +ℤ pos c.amount
      ≡ all_shares c.stock_asset_id t
unfolding after_sale
sale-total c t owner found =
    let holder = find_ownership-holder _ t found in
    let asset : owner.asset_id ≡ c.stock_asset_id = ap (λ h. h.asset_id) holder in
    let moved =
      upsert-total c.stock_asset_id (after_sale c owner) t {u = owner}
        (subst (λ h. find_ownership h t ≡ some owner) (sym holder) found) in
    sold _ _ owner.amount (pos c.amount) (
      subst
        (λ x.
          all_shares c.stock_asset_id (upsert_ownership (after_sale c owner) t) +ℤ x
          ≡ all_shares c.stock_asset_id t +ℤ (owner.amount -ℤ pos c.amount))
        (shares-own c.stock_asset_id owner asset)
        (moved
          ∙ ap (λ x. all_shares c.stock_asset_id t +ℤ x)
              (shares-own c.stock_asset_id (after_sale c owner) asset)))

known_purchase :
    (c : OtcOptionContract) (t : List AssetOwnership) (b : AssetOwnership)
    → find_ownership (client_holder c.buyer_id c.stock_asset_id) t ≡ some b
    → all_shares c.stock_asset_id (upsert_ownership (after_purchase c b) t)
      ≡ all_shares c.stock_asset_id t +ℤ pos c.amount
unfolding after_purchase
known_purchase c t b found =
    let holder = find_ownership-holder _ t found in
    let asset : b.asset_id ≡ c.stock_asset_id = ap (λ h. h.asset_id) holder in
    let moved =
      upsert-total c.stock_asset_id (after_purchase c b) t {u = b}
        (subst (λ h. find_ownership h t ≡ some b) (sym holder) found) in
    bought _ _ b.amount (pos c.amount) (
      subst
        (λ x.
          all_shares c.stock_asset_id (upsert_ownership (after_purchase c b) t) +ℤ x
          ≡ all_shares c.stock_asset_id t +ℤ (b.amount +ℤ pos c.amount))
        (shares-own c.stock_asset_id b asset)
        (moved
          ∙ ap (λ x. all_shares c.stock_asset_id t +ℤ x)
              (shares-own c.stock_asset_id (after_purchase c b) asset)))

new_purchase :
    (c : OtcOptionContract) (t : List AssetOwnership)
    → find_ownership (client_holder c.buyer_id c.stock_asset_id) t ≡ none
    → all_shares c.stock_asset_id (upsert_ownership (after_purchase c (no_shares c)) t)
      ≡ all_shares c.stock_asset_id t +ℤ pos c.amount
unfolding after_purchase no_shares
new_purchase c t missing =
    upsert-total_new c.stock_asset_id (after_purchase c (no_shares c)) t missing
    ∙ ap (λ x. all_shares c.stock_asset_id t +ℤ x)
        (shares-own c.stock_asset_id (after_purchase c (no_shares c)) refl ∙ omega int_laws)

pub purchase-total :
    (c : OtcOptionContract) (t : List AssetOwnership)
    → all_shares c.stock_asset_id (
        upsert_ownership
          (after_purchase c
            (or_else (find_ownership (client_holder c.buyer_id c.stock_asset_id) t) (no_shares c)))
          t)
      ≡ all_shares c.stock_asset_id t +ℤ pos c.amount
purchase-total c t =
    elim (Option-cases (find_ownership (client_holder c.buyer_id c.stock_asset_id) t)) [
      | inl missing ↦ rw missing (new_purchase c t missing)
      | inr (b, found) ↦ rw found (known_purchase c t b found)
    ]
