-- ===== src/Interbank/Reservations/Loop.antt =====
-- message_processor.go: what the loop over the postings has asked for and given back.
use mathlib.Core.List
use raf_8_banka_4_backend.Shared.{
  ℕ, suc, ◌≡◌, refl, sym, ap, subst, ◌∙◌, ◌⊎◌, inl, inr, Bool, true, false, Option, none, some,
  List, [], ◌∷◌, ◌++◌, map, reverse, Result, ok, err, Bool-cases, Option-cases,
}
use raf_8_banka_4_backend.Interbank.Model.{
  Posting, Transaction, TransactionVote, vote_no, vote_yes, NoVoteReasonKind, insufficient_asset,
}
use raf_8_banka_4_backend.Interbank.Node.{
  Node, Env, Entry, RemoteCall, RemoteError, prepare_cash, reserve_shares, request,
}
use raf_8_banka_4_backend.Interbank.Assets.{cash_no_vote_reason, is_local_posting}
use raf_8_banka_4_backend.Interbank.Prepare.{
  Need, PreparedItem, cash, option, need, refuse, nothing, reserve_cash, reserve_stock, Prepared,
  refused, granted, perform, prepare_posting, undo, undo_all, rollback_effects, no_vote,
  reserve_postings,
}

granted_call : RemoteCall → List PreparedItem
granted_call (prepare_cash q) = cash q.posting_id ∷ []
granted_call (reserve_shares q) = option q.contract_id ∷ []
granted_call _ = []

abbrev granted_entry : RemoteCall → Option RemoteError → List PreparedItem
granted_entry c none = granted_call c
granted_entry c (some e) = []

-- The reservations that a log shows as taken: the calls for one that had no error.
unfoldable pub granted_by : List Entry → List PreparedItem
unfolding granted_call
granted_by [] = []
granted_by (e ∷ t) = granted_entry e.call e.reply ++ granted_by t

-- A call that asks for a reservation.
abbrev pub asks : RemoteCall → Bool
asks (prepare_cash q) = true
asks (reserve_shares q) = true
asks _ = false

-- Every call asks for a reservation.
unfoldable pub AllAsk : List Entry → Type 0
AllAsk [] = Unit
AllAsk (e ∷ t) = (asks e.call ≡ true) × AllAsk t

AllAsk-append : (a b : List Entry) → AllAsk a → AllAsk b → AllAsk (a ++ b)
unfolding AllAsk
AllAsk-append [] b h k = k
AllAsk-append (e ∷ a) b (h, rest) k = (h, AllAsk-append a b rest k)

abbrev with_log : Node → List Entry → Node
with_log s l = record s { log = l }

undo_all-calls :
    (env : Env) (items : List PreparedItem) (s : Node)
    → (undone : List Entry) × (undo_all env items s ≡ with_log s (s.log ++ undone))
      × (map (λ e. e.call) undone ≡ map undo items)
unfolding undo_all request
undo_all-calls env [] s = ([], ap (with_log s) (sym (List.append-nil s.log)), refl)
undo_all-calls env (item ∷ items) s =
    let e : Entry = record { call = undo item; reply = env.reply s.log (undo item) } in
    let (rest, run, calls) = undo_all-calls env items (with_log s (s.log ++ e ∷ [])) in
    (
      e ∷ rest,
      run ∙ ap (with_log s) (List.append_assoc s.log (e ∷ []) rest),
      ap (λ l. undo item ∷ l) calls,
    )

-- The calls that answer to a need: none are left that are not accounted for.
Performed : Node → Prepared × Node → Type 0
Performed s (o, t) =
    (asked : List Entry) × (t ≡ with_log s (s.log ++ asked))
    × AllAsk asked
    × ((o ≡ granted (granted_by asked))
        ⊎ ((reason : NoVoteReasonKind) × (o ≡ refused reason) × (granted_by asked ≡ [])))

perform-Performed : (env : Env) (n : Need) (s : Node) → Performed s (perform env n s)
unfolding Performed perform request granted_by granted_call AllAsk
perform-Performed env (refuse reason) s =
    ([], ap (with_log s) (sym (List.append-nil s.log)), tt, inr (reason, refl, refl))
perform-Performed env nothing s = ([], ap (with_log s) (sym (List.append-nil s.log)), tt, inl refl)
perform-Performed env (reserve_cash q) s =
    let e = env.reply s.log (prepare_cash q) in
    (
      record { call = prepare_cash q; reply = e } ∷ [],
      refl,
      (refl, tt),
      elim (Option-cases e) [
        | inl h ↦ inl (rw h refl)
        | inr (x, h) ↦ inr (cash_no_vote_reason x, rw h refl, rw h refl)
      ],
    )
perform-Performed env (reserve_stock q) s =
    let e = env.reply s.log (reserve_shares q) in
    (
      record { call = reserve_shares q; reply = e } ∷ [],
      refl,
      (refl, tt),
      elim (Option-cases e) [
        | inl h ↦ inl (rw h refl)
        | inr (x, h) ↦ inr (insufficient_asset, rw h refl, rw h refl)
      ],
    )

granted_by-append : (a b : List Entry) → granted_by (a ++ b) ≡ granted_by a ++ granted_by b
unfolding granted_by
granted_by-append [] b = refl
granted_by-append (e ∷ a) b =
    ap (λ l. granted_entry e.call e.reply ++ l) (granted_by-append a b)
    ∙ sym (List.append_assoc (granted_entry e.call e.reply) (granted_by a) (granted_by b))

-- What is left of a run from `s` with the effects so far: calls for reservations, and for a NO vote
-- also those that undo every reservation, the last one first.
unfoldable pub Reserved : Node → List PreparedItem → Option TransactionVote × Node → Type 0
Reserved s effects (none, t) = (asked : List Entry) × (t ≡ with_log s (s.log ++ asked))
Reserved s effects (some v, t) =
    (asked undone : List Entry) × (t ≡ with_log s (s.log ++ asked ++ undone))
    × AllAsk asked
    × (map (λ e. e.call) undone ≡ map undo (reverse (effects ++ granted_by asked)))

Reserved-later :
    (s : Node) (effects : List PreparedItem) (first : List Entry)
    (o : Option TransactionVote × Node)
    → AllAsk first
    → Reserved (with_log s (s.log ++ first)) (effects ++ granted_by first) o
    → Reserved s effects o
unfolding Reserved
Reserved-later s effects first (none, t) ask (asked, run) =
    (first ++ asked, run ∙ ap (with_log s) (List.append_assoc s.log first asked))
Reserved-later s effects first (some v, t) ask (asked, undone, run, more, calls) = (
  first ++ asked,
  undone,
  run ∙ ap (λ l. with_log s (l ++ undone)) (List.append_assoc s.log first asked),
  AllAsk-append first asked ask more,
  calls
      ∙ ap (λ l. map undo (reverse l))
          (List.append_assoc effects (granted_by first) (granted_by asked)
            ∙ ap (λ l. effects ++ l) (sym (granted_by-append first asked))),
)

Reserved-refused :
    (env : Env) (reason : NoVoteReasonKind) (p : Posting) (effects : List PreparedItem) (s t : Node)
    (asked : List Entry)
    → t ≡ with_log s (s.log ++ asked)
    → AllAsk asked
    → granted_by asked ≡ []
    → Reserved s effects (some (no_vote reason p), rollback_effects env effects t)
unfolding Reserved rollback_effects
Reserved-refused env reason p effects s t asked run ask none_granted =
    let (undone, undo_run, calls) = undo_all-calls env (reverse effects) t in
    (
      asked,
      undone,
      undo_run ∙ ap (λ u. with_log u (u.log ++ undone)) run,
      ask,
      calls
          ∙ ap (λ l. map undo (reverse l))
              (sym (List.append-nil effects) ∙ ap (λ l. effects ++ l) (sym none_granted)),
    )

-- One step of the loop, on a posting of ours.
reserve_postings-local :
    (env : Env) (tx : Transaction) (b i : ℕ) (p : Posting) (ps : List Posting)
    (effects : List PreparedItem) (s : Node)
    → is_local_posting env.our_routing p ≡ true
    → reserve_postings env tx b i (p ∷ ps) effects s ≡ elim (prepare_posting env tx i b p s).0 [
      | refused reason ↦
          (some (no_vote reason p), rollback_effects env effects (prepare_posting env tx i b p s).1)
      | granted items ↦
          reserve_postings env tx b (suc i) ps (effects ++ items) (prepare_posting env tx i b p s).1
    ]
unfolding reserve_postings
reserve_postings-local env tx b i p ps effects s e = cc

pub reserve_postings-Reserved :
    (env : Env) (tx : Transaction) (banking_tx_id index : ℕ) (ps : List Posting)
    (effects : List PreparedItem) (s : Node)
    → Reserved s effects (reserve_postings env tx banking_tx_id index ps effects s)
unfolding reserve_postings prepare_posting Reserved Performed
reserve_postings-Reserved env tx b i [] effects s =
    ([], ap (with_log s) (sym (List.append-nil s.log)))
reserve_postings-Reserved env tx b i (p ∷ ps) effects s =
    let here = reserve_postings env tx b i (p ∷ ps) effects s in
    elim (Bool-cases (is_local_posting env.our_routing p)) [
      | inr e ↦
          let skipped : here ≡ reserve_postings env tx b (suc i) ps effects s = cc in
          subst (Reserved s effects) (sym skipped)
            (reserve_postings-Reserved env tx b (suc i) ps effects s)
      | inl e ↦
          let (asked, run, ask, outcome) = perform-Performed env (need env s tx i b p) s in
          let t = (perform env (need env s tx i b p) s).1 in
          elim outcome [
            | inl g ↦
                let on : Node → Option TransactionVote × Node =
                  reserve_postings env tx b (suc i) ps (effects ++ granted_by asked) in
                let taken : here ≡ on t =
                  reserve_postings-local env tx b i p ps effects s e ∙ rw g refl in
                subst (Reserved s effects) (sym (taken ∙ ap on run)) (
                  Reserved-later s effects asked _ ask (
                    reserve_postings-Reserved env tx b (suc i) ps (effects ++ granted_by asked)
                      (with_log s (s.log ++ asked))))
            | inr (reason, g, no_grant) ↦
                let stopped : here ≡ (some (no_vote reason p), rollback_effects env effects t) =
                  reserve_postings-local env tx b i p ps effects s e ∙ rw g refl in
                subst (Reserved s effects) (sym stopped)
                  (Reserved-refused env reason p effects s t asked run ask no_grant)
          ]
    ]

-- With a NO vote, whatever its reason, the new calls are calls that ask for reservations and then one
-- undoing call for each of those that were granted, the last one first, and no others.
unfoldable pub Accounted : Node → Result TransactionVote × Node → Type 0
Accounted s (err e, t) = Unit
Accounted s (ok vote_yes, t) = Unit
Accounted s (ok (vote_no reasons), t) =
    (asked undone : List Entry) × (t.log ≡ s.log ++ asked ++ undone)
    × AllAsk asked
    × (map (λ e. e.call) undone ≡ map undo (reverse (granted_by asked)))
