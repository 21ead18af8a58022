-- ===== src/Hot/Seen.antt =====
-- From the node to the updates: a scan, a poll and what the hot wallet makes of the answer.
use mathlib.Core.List.{append_assoc}
use hexstody.Prelude.{
  ℕ, ◌+◌, ◌≡◌, refl, sym, ◌∙◌, ap, List, [], ◌∷◌, ◌++◌, Option, some, filter_map, arith,
}
use mathlib.Core.Option
use hexstody.Prelude.Int.{pos, pos_part, neg_part}
use hexstody.Prelude.Fallible.{ok}
use hexstody.Update.Btc.{TxUpdate, TxDirection, Address}
use hexstody.Update.Body.{UpdateBody}
use hexstody.State.Transaction.{from_tx_update}
use hexstody.State.Core.{State}
use hexstody.Btc.{Node, ListTransaction, Category, SinceBlock}
use hexstody.Btc.Scan.{
  ScanState, BtcEvent, node_round, poll_events, to_update_event, to_remove_event, scan_from,
}
use hexstody.Btc.Scan.Delivery.{node_round-events, found_by}
use hexstody.Hot.{Format, event_update, process_btc_events}

filter_map-append :
    {A B : Type 0} (f : A → Option B) (xs ys : List A)
    → filter_map f (xs ++ ys) ≡ filter_map f xs ++ filter_map f ys
filter_map-append f [] ys = refl
filter_map-append f (x ∷ xs) ys = ground (arith, filter_map-append f xs ys)

-- The update stands somewhere in the list.
abbrev pub Holds : List UpdateBody → UpdateBody → Type 0
Holds xs x = (front : List UpdateBody) × (back : List UpdateBody) × (xs ≡ front ++ x ∷ back)

filter_map-Holds :
    {A B : Type 0} (f : A → Option B) (front back : List A) (x : A) (y : B)
    → f x ≡ some y
    → filter_map f (front ++ x ∷ back) ≡ filter_map f front ++ y ∷ filter_map f back
filter_map-Holds f front back x y h = filter_map-append f front (x ∷ back) ∙ rw (h, filter_map) refl

Holds-filter_map :
    {A : Type 0} (f : A → Option UpdateBody) (best : List UpdateBody) (xs front back : List A)
    (x : A) (y : UpdateBody)
    → xs ≡ front ++ x ∷ back
    → f x ≡ some y
    → Holds (best ++ filter_map f xs) y
Holds-filter_map f best xs front back x y split h = (
  best ++ filter_map f front,
  filter_map f back,
  ap (λ zs. best ++ filter_map f zs) split
      ∙ ap (λ zs. best ++ zs) (filter_map-Holds f front back x y h)
      ∙ sym (append_assoc best (filter_map f front) (y ∷ filter_map f back)),
)

-- What the adapter tells of a payment to the wallet.
abbrev pub deposit_of : ListTransaction → Address → ℕ → TxUpdate
deposit_of tx address confirmations = record {
  direction = TxDirection.deposit;
  txid = tx.txid;
  vout = tx.vout;
  address = address;
  amount = pos_part tx.amount + neg_part tx.amount;
  confirmations = confirmations;
  timestamp = tx.timereceived;
  conflicts = tx.wallet_conflicts;
  fee = Option.map (λ x. pos_part x + neg_part x) tx.fee;
}

-- If the node lists a payment to the wallet with an address and a number of confirmations that is
-- not negative, then after one round of the scan and a poll the hot wallet sends an update with
-- exactly this deposit.
pub process_btc_events-node_round :
    {N E : Type 0} (node : Node N E) (f : Format) (s : ScanState) (st : State) (n : N)
    (since : SinceBlock) (front back : List ListTransaction) (tx : ListTransaction)
    (address : Address) (c : ℕ)
    → node.list_since_block s.last_block n ≡ ok since
    → since.transactions ≡ front ++ tx ∷ back
    → tx.category ≡ Category.receive
    → tx.address ≡ some address
    → tx.confirmations ≡ pos c
    → Holds
        (process_btc_events f st (poll_events (node_round node n s).0).0)
        (UpdateBody.update_btc_tx (from_tx_update f.from_timestamp (deposit_of tx address c)))
unfolding process_btc_events poll_events scan_from to_update_event
process_btc_events-node_round node f s st n since front back tx address c answer listed kind to_us
      deep =
    let removed = filter_map to_remove_event since.removed in
    let before = filter_map to_update_event front in
    let after = filter_map to_update_event back in
    let event = BtcEvent.update (deposit_of tx address c) in
    let seen : to_update_event tx ≡ some event = rw (to_update_event, kind, to_us, deep) refl in
    let updates : filter_map to_update_event since.transactions ≡ before ++ event ∷ after =
      rw listed (filter_map-Holds to_update_event front back tx event seen) in
    let found : found_by (scan_from node s.last_block n) ≡ removed ++ (before ++ event ∷ after) =
      rw (scan_from, answer, updates) refl in
    let events : (node_round node n s).0.events ≡ (s.events ++ removed ++ before) ++ event ∷ after =
      node_round-events node n s
      ∙ ap (λ es. s.events ++ es) found
      ∙ sym (append_assoc s.events removed (before ++ event ∷ after))
      ∙ sym (append_assoc (s.events ++ removed) before (event ∷ after)) in
    Holds-filter_map (event_update f) _ (node_round node n s).0.events
      (s.events ++ removed ++ before) after event
      (UpdateBody.update_btc_tx (from_tx_update f.from_timestamp (deposit_of tx address c))) events
      refl
