-- ===== src/Trading/Agreement/Shares.antt =====
-- The seller's shares in an agreement: what is reserved stays within what is public.
use raf_8_banka_4_backend.Shared.{
  ℕ, ◌≡◌, refl, inl, inr, ap, ◌∙◌, subst, String, some, Option-cases, List, ℤ, pos, ◌+ℤ◌, ◌≤ℤ◌,
  +ℤ_parts, arith, Result-cases, ok, find-save, if_pos, find-key,
}
use raf_8_banka_4_backend.Trading.Model.{OtcOffer, AssetOwnership}
use raf_8_banka_4_backend.Trading.World.{
  World, Env, find_offer_row, find_ownership, upsert_ownership, Holder, Holder_discrete, holder_of,
  client_holder, sum_active_offers,
}
use raf_8_banka_4_backend.Trading.Contracts.{validate_seller_capacity_for_activation}
use raf_8_banka_4_backend.Trading.Agreement.{
  open_offer, seller_account, check_active, offer_standing, activate, activation,
}

abbrev pub seller_of : OtcOffer → Holder
seller_of o = client_holder o.seller_id o.stock_asset_id

-- The amounts that the seller's other active offers commit.
abbrev pub other_offers : OtcOffer → World → ℤ
other_offers o s = sum_active_offers o.seller_id o.stock_asset_id o.otc_offer_id s.offers

pub find-upsert_ownership :
    (h : Holder) (o v : AssetOwnership) (t : List AssetOwnership)
    → find_ownership h t ≡ some o
    → holder_of v ≡ holder_of o
    → find_ownership h (upsert_ownership v t) ≡ some v
unfolding find_ownership upsert_ownership
find-upsert_ownership h o v t found same =
    find-save Holder_discrete holder_of h v t
    ∙ if_pos (Holder_discrete (holder_of v) h) (same ∙ find-key Holder_discrete holder_of h t found)
        _ _

validate-ok :
    (env : Env) (o : OtcOffer) (s : World) {t : World}
    → validate_seller_capacity_for_activation env o s ≡ (ok tt, t)
    → (owner : AssetOwnership) × (find_ownership (seller_of o) s.ownerships ≡ some owner)
      × (owner.reserved_amount +ℤ other_offers o s +ℤ pos o.amount ≤ℤ owner.public_amount)
unfolding validate_seller_capacity_for_activation
validate-ok env o s h = elim (Option-cases (find_ownership (seller_of o) s.ownerships)) [
  | inl missing ↦ absurd (ground arith)
  | inr (owner, found) ↦ (owner, found, ground arith)
]

activate-ok :
    (env : Env) (o : OtcOffer) (account : String) (by : ℕ) (s : World) (owner : AssetOwnership)
    {c : ℕ} {t : World}
    → find_ownership (seller_of o) s.ownerships ≡ some owner
    → activate env o account by s ≡ (ok c, t)
    → t.ownerships
      ≡ upsert_ownership
          (record owner { reserved_amount = owner.reserved_amount +ℤ pos o.amount })
          s.ownerships
unfolding activate
activate-ok env o account by s owner found h = ground arith

check_active-ok :
    (env : Env) (p : OtcOffer) (s : World) {o : OtcOffer} {account : String} {t : World}
    → check_active env p s ≡ (ok (open_offer o account), t)
    → (p ≡ o) × (validate_seller_capacity_for_activation env p s ≡ (ok tt, t))
unfolding check_active
check_active-ok env p s h = elim (Result-cases (seller_account p)) [
  | inr (x, bad) ↦ absurd (ground arith)
  | inl (a, good) ↦ elim (Result-cases (validate_seller_capacity_for_activation env p s).0) [
    | inr (x, bad) ↦ absurd (ground arith)
    | inl (u, valid) ↦ (ground arith, ground arith)
  ]
]

offer_standing-open :
    (env : Env) (i : ℕ) (s : World) {o : OtcOffer} {account : String} {t : World}
    → offer_standing env i s ≡ (ok (open_offer o account), t)
    → (p : OtcOffer) × (check_active env p s ≡ (ok (open_offer o account), t))
unfolding offer_standing
offer_standing-open env i s h = elim (Option-cases (find_offer_row i s.offers)) [
  | inl missing ↦ absurd (ground arith)
  | inr (p, found) ↦ (p, ground arith)
]

-- After an activation the seller's row still has, for every share that is reserved or offered elsewhere,
-- a public one: the new contract has taken no share that was promised before.
pub activation-within_public :
    (env : Env) (i accepted_by : ℕ) (s : World) {o : OtcOffer} {account : String} {c : ℕ}
    {t : World}
    → offer_standing env i s ≡ (ok (open_offer o account), s)
    → activation env i accepted_by s ≡ (ok c, t)
    → (owner : AssetOwnership) × (find_ownership (seller_of o) t.ownerships ≡ some owner)
      × (owner.reserved_amount +ℤ other_offers o s ≤ℤ owner.public_amount)
unfolding activation
activation-within_public env i accepted_by s {o} {account} {c} {t} opened h =
    let (p, checked) = offer_standing-open env i s opened in
    let (same, valid) = check_active-ok env p s checked in
    let (owner, found, room) =
      validate-ok env o s
        (subst (λ q. validate_seller_capacity_for_activation env q s ≡ (ok tt, s)) same valid) in
    let done : activate env o account accepted_by s ≡ (ok c, t) = ground (arith, opened) in
    let rows = activate-ok env o account accepted_by s owner found done in
    let grown : AssetOwnership = record owner {
      reserved_amount = owner.reserved_amount +ℤ pos o.amount;
    } in
    (
      grown,
      ap (find_ownership (seller_of o)) rows
          ∙ find-upsert_ownership (seller_of o) owner grown s.ownerships found refl,
      omega (
        arith,
        room,
        +ℤ_parts (owner.reserved_amount +ℤ other_offers o s) (pos o.amount),
        +ℤ_parts owner.reserved_amount (other_offers o s),
        +ℤ_parts (owner.reserved_amount +ℤ pos o.amount) (other_offers o s),
        +ℤ_parts owner.reserved_amount (pos o.amount),
      ),
    )
