-- ===== src/Trading/Ownership/Held.antt =====
-- The shares that one owner has of an asset, before and after a sale and a purchase.
use raf_8_banka_4_backend.Shared.{
  ℕ, ite, if_pos, if_neg, ◌≡◌, refl, inl, inr, sym, ap, ◌∙◌, Option, none, some, Option-cases, List,
  ℤ, pos, ◌+ℤ◌, ◌-ℤ◌, int_laws, arith, find-key, find-save,
}
use raf_8_banka_4_backend.Trading.Model.{OtcOptionContract, AssetOwnership}
use raf_8_banka_4_backend.Trading.World.{
  find_ownership, upsert_ownership, Holder, Holder_discrete, holder_of, client_holder,
}
use raf_8_banka_4_backend.Trading.Contracts.{after_sale, after_purchase, no_shares, or_else}

pub find_ownership-holder :
    (h : Holder) (t : List AssetOwnership) {o : AssetOwnership}
    → find_ownership h t ≡ some o
    → holder_of o ≡ h
unfolding find_ownership
find_ownership-holder h t found = find-key Holder_discrete holder_of h t found

abbrev pub amount_of : Option AssetOwnership → ℤ
amount_of none = pos 0
amount_of (some o) = o.amount

-- The shares of one owner of an asset.
abbrev pub held : Holder → List AssetOwnership → ℤ
held k t = amount_of (find_ownership k t)

-- The shares of a contract as seen by an owner who is the given client, or who is not.
abbrev pub part_of : OtcOptionContract → ℕ → Holder → ℤ
part_of c client k =
    ite (Holder_discrete (client_holder client c.stock_asset_id) k) (pos c.amount) (pos 0)

upsert-held :
    (v : AssetOwnership) (t : List AssetOwnership) (k : Holder)
    → held k (upsert_ownership v t) ≡ ite (Holder_discrete (holder_of v) k) v.amount (held k t)
unfolding find_ownership upsert_ownership
upsert-held v t k = ground (arith, find-save Holder_discrete holder_of k v t)

less : (a q : ℤ) → a -ℤ q +ℤ q ≡ a
less a q = omega int_laws

plus_zero : (a : ℤ) → a +ℤ pos 0 ≡ a
plus_zero a = omega int_laws

more : (q : ℤ) → pos 0 +ℤ q ≡ q
more q = omega int_laws

grown-held :
    (v : AssetOwnership) (t : List AssetOwnership) (h k : Holder) (q : ℤ)
    → holder_of v ≡ h
    → v.amount ≡ held h t +ℤ q
    → held k (upsert_ownership v t) ≡ held k t +ℤ ite (Holder_discrete h k) q (pos 0)
grown-held v t h k q own grown =
    let after : held k (upsert_ownership v t) ≡ ite (Holder_discrete h k) v.amount (held k t) =
      upsert-held v t k ∙ ap (λ x. ite (Holder_discrete x k) v.amount (held k t)) own in
    elim (Holder_discrete h k) [
      | yes p ↦
          after
          ∙ if_pos (Holder_discrete h k) p _ _
          ∙ grown
          ∙ ap (λ x. held x t +ℤ q) p
          ∙ ap (λ x. held k t +ℤ x) (sym (if_pos (Holder_discrete h k) p q (pos 0)))
      | no n ↦
          after
          ∙ if_neg (Holder_discrete h k) n _ _
          ∙ sym (plus_zero (held k t))
          ∙ ap (λ x. held k t +ℤ x) (sym (if_neg (Holder_discrete h k) n q (pos 0)))
    ]

shrunk-held :
    (v : AssetOwnership) (t : List AssetOwnership) (h k : Holder) (q : ℤ)
    → holder_of v ≡ h
    → v.amount +ℤ q ≡ held h t
    → held k (upsert_ownership v t) +ℤ ite (Holder_discrete h k) q (pos 0) ≡ held k t
shrunk-held v t h k q own shrunk =
    let after : held k (upsert_ownership v t) ≡ ite (Holder_discrete h k) v.amount (held k t) =
      upsert-held v t k ∙ ap (λ x. ite (Holder_discrete x k) v.amount (held k t)) own in
    elim (Holder_discrete h k) [
      | yes p ↦
          ap (λ x. x +ℤ ite (Holder_discrete h k) q (pos 0))
            (after ∙ if_pos (Holder_discrete h k) p _ _)
          ∙ ap (λ x. v.amount +ℤ x) (if_pos (Holder_discrete h k) p q (pos 0))
          ∙ shrunk
          ∙ ap (λ x. held x t) p
      | no n ↦
          ap (λ x. x +ℤ ite (Holder_discrete h k) q (pos 0))
            (after ∙ if_neg (Holder_discrete h k) n _ _)
          ∙ ap (λ x. held k t +ℤ x) (if_neg (Holder_discrete h k) n q (pos 0))
          ∙ plus_zero (held k t)
    ]

held-found :
    (h : Holder) (t : List AssetOwnership) {o : AssetOwnership}
    → find_ownership h t ≡ some o
    → held h t ≡ o.amount
held-found h t found = ap amount_of found

held-missing : (h : Holder) (t : List AssetOwnership) → find_ownership h t ≡ none → held h t ≡ pos 0
held-missing h t missing = ap amount_of missing

pub sale-held :
    (c : OtcOptionContract) (t : List AssetOwnership) (owner : AssetOwnership) (k : Holder)
    → find_ownership (client_holder c.seller_id c.stock_asset_id) t ≡ some owner
    → held k (upsert_ownership (after_sale c owner) t) +ℤ part_of c c.seller_id k ≡ held k t
unfolding after_sale
sale-held c t owner k found =
    shrunk-held (after_sale c owner) t _ k (pos c.amount) (find_ownership-holder _ t found)
      (less owner.amount (pos c.amount) ∙ sym (held-found _ t found))

pub purchase-held :
    (c : OtcOptionContract) (t : List AssetOwnership) (k : Holder)
    → let buyer = client_holder c.buyer_id c.stock_asset_id in
      held k
        (upsert_ownership (after_purchase c (or_else (find_ownership buyer t) (no_shares c))) t)
      ≡ held k t +ℤ part_of c c.buyer_id k
unfolding after_purchase no_shares
purchase-held c t k =
    let buyer = client_holder c.buyer_id c.stock_asset_id in
    elim (Option-cases (find_ownership buyer t)) [
      | inl missing ↦ rw missing (
          grown-held (after_purchase c (no_shares c)) t buyer k (pos c.amount) refl
            (ap (λ x. x +ℤ pos c.amount) (sym (held-missing buyer t missing))))
      | inr (b, found) ↦ rw found (
          grown-held (after_purchase c b) t buyer k (pos c.amount)
            (find_ownership-holder buyer t found)
            (ap (λ x. x +ℤ pos c.amount) (sym (held-found buyer t found))))
    ]
