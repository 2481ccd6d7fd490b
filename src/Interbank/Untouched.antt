-- ===== src/Interbank/Untouched.antt =====
-- message_processor.go: the commit and the rollback of the postings touch no record of a transaction.
use raf_8_banka_4_backend.Shared.{ℕ, suc, ◌≡◌, refl, Bool, List, [], ◌∷◌, Action, arith}
use raf_8_banka_4_backend.Interbank.Model.{
  ForeignBankId, Posting, Transaction, OptionDescription, PeerContract, PeerNegotiation,
}
use raf_8_banka_4_backend.Interbank.Node.{Node, Env, request, create_contract_row}
use raf_8_banka_4_backend.Interbank.Settle.{
  accept_negotiation, commit_option_seller, commit_option_buyer, commit_option_posting, exercise,
  commit_stock_posting, commit_posting, commit_postings, rollback_posting, rollback_postings,
}

create_contract_row-prepared :
    (f : Bool) (c : PeerContract) (s : Node) → (create_contract_row f c s).1.prepared ≡ s.prepared
unfolding create_contract_row
create_contract_row-prepared f c s = ground arith

accept_negotiation-prepared :
    (env : Env) (i : ℕ) (n : PeerNegotiation) (s : Node)
    → (accept_negotiation env i n s).prepared ≡ s.prepared
unfolding accept_negotiation
accept_negotiation-prepared env i n s = ground arith

commit_option_seller-prepared :
    (env : Env) (tx : Transaction) (i : ℕ) (o : OptionDescription) (s : Node)
    → (commit_option_seller env tx i o s).1.prepared ≡ s.prepared
unfolding commit_option_seller
commit_option_seller-prepared env tx i o s =
    grind (arith, create_contract_row-prepared, accept_negotiation-prepared)

commit_option_buyer-prepared :
    (env : Env) (tx : Transaction) (i : ℕ) (o : OptionDescription) (buyer : ℕ) (s : Node)
    → (commit_option_buyer env tx i o buyer s).1.prepared ≡ s.prepared
unfolding commit_option_buyer
commit_option_buyer-prepared env tx i o buyer s =
    grind (arith, create_contract_row-prepared, accept_negotiation-prepared)

exercise-prepared :
    (env : Env) (i : ℕ) (k : ForeignBankId) (move_shares : PeerContract → Action Node (Unit {0}))
    (s : Node)
    → ((c : PeerContract) → (move_shares c s).1.prepared ≡ s.prepared)
    → (exercise env i k move_shares s).1.prepared ≡ s.prepared
unfolding exercise
exercise-prepared env i k move_shares s same = grind (arith, same)

commit_posting-prepared :
    (env : Env) (tx : Transaction) (i : ℕ) (p : Posting) (s : Node)
    → (commit_posting env tx i p s).1.prepared ≡ s.prepared
unfolding commit_posting commit_option_posting commit_stock_posting request
commit_posting-prepared env tx i p s =
    grind (arith, commit_option_seller-prepared, commit_option_buyer-prepared, exercise-prepared)

pub commit_postings-prepared :
    (env : Env) (tx : Transaction) (i : ℕ) (ps : List Posting) (s : Node)
    → (commit_postings env tx i ps s).1.prepared ≡ s.prepared
unfolding commit_postings
commit_postings-prepared env tx i [] s = refl
commit_postings-prepared env tx i (p ∷ ps) s =
    grind (arith, commit_posting-prepared env tx i p s, commit_postings-prepared env tx (suc i) ps)

rollback_posting-prepared :
    (env : Env) (tx : Transaction) (i : ℕ) (p : Posting) (s : Node)
    → (rollback_posting env tx i p s).prepared ≡ s.prepared
unfolding rollback_posting request
rollback_posting-prepared env tx i p s = ground arith

pub rollback_postings-prepared :
    (env : Env) (tx : Transaction) (i : ℕ) (ps : List Posting) (s : Node)
    → (rollback_postings env tx i ps s).prepared ≡ s.prepared
unfolding rollback_postings
rollback_postings-prepared env tx i [] s = refl
rollback_postings-prepared env tx i (p ∷ ps) s =
    grind
      (arith, rollback_posting-prepared env tx i p s, rollback_postings-prepared env tx (suc i) ps)
