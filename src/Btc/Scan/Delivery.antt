-- ===== src/Btc/Scan/Delivery.antt =====
-- Rounds of the scan and polls in any order: each event is handed out once, in the order in which the
-- scan found it.
use mathlib.Core.List.{append_assoc, append-nil}
use hexstody.Prelude.{
  ◌≡◌, refl, sym, ◌∙◌, ap, List, [], ◌∷◌, ◌++◌, inl, inr, Bool-cases, ◌==◌, nat_eq,
}
use hexstody.Prelude.Fallible.{Fallible, ok, err}
use hexstody.Btc.{Node, BlockHash}
use hexstody.Btc.Scan.{ScanState, BtcEvent, scan_from, node_round, poll_events, absorb}

-- A round of the scan with the node as it then is, or a poll.
pub data Step (N : Type 0) : Type 0 where
  scan : N → Step N
  poll : Step N

abbrev pub found_by : {E H : Type 0} → Fallible E (List BtcEvent × H) → List BtcEvent
found_by (ok (events, h)) = events
found_by (err e) = []

module _ {N E : Type 0} (node : Node N E) where
  unfoldable pub step : Step N → ScanState → ScanState
  step (scan n) s = (node_round node n s).0
  step poll s = (poll_events s).1

  -- What the polls hand out.
  unfoldable pub delivered : List (Step N) → ScanState → List BtcEvent
  unfolding step
  delivered [] s = []
  delivered (scan n ∷ rest) s = delivered rest (step (scan n) s)
  delivered (poll ∷ rest) s = (poll_events s).0.events ++ delivered rest (step poll s)

  -- What the scans find, each from the block that it starts at.
  unfoldable pub found : List (Step N) → ScanState → List BtcEvent
  unfolding step
  found [] s = []
  found (scan n ∷ rest) s = found_by (scan_from node s.last_block n) ++ found rest (step (scan n) s)
  found (poll ∷ rest) s = found rest (step poll s)

  absorb-events :
      (n : N) (r : Fallible E (List BtcEvent × BlockHash)) (s : ScanState)
      → (absorb node n r s).0.events ≡ s.events ++ found_by r
  absorb-events n (err e) s = sym (append-nil s.events)
  absorb-events n (ok ([], h)) s = elim (Bool-cases (s.last_block == h)) [
    | inl same ↦ rw same (sym (append-nil s.events))
    | inr new ↦ rw new refl
  ]
  absorb-events n (ok (e ∷ es, h)) s = refl

  pub node_round-events :
      (n : N) (s : ScanState)
      → (node_round node n s).0.events ≡ s.events ++ found_by (scan_from node s.last_block n)
  unfolding node_round
  node_round-events n s = absorb-events n (scan_from node s.last_block n) s

  -- After any rounds of the scan and polls in any order, with the node in any state at each round,
  -- and a poll at the end, the polls have handed out the events that were waiting and then every
  -- event that the rounds found, each once and in this order.
  pub delivered-found :
      (steps : List (Step N)) (s : ScanState)
      → delivered (steps ++ poll ∷ []) s ≡ s.events ++ found steps s
  unfolding delivered found step poll_events
  delivered-found [] s = refl
  delivered-found (scan n ∷ rest) s =
      let next = (node_round node n s).0 in
      delivered-found rest next
      ∙ ap (λ es. es ++ found rest next) (node_round-events n s)
      ∙ append_assoc s.events (found_by (scan_from node s.last_block n)) (found rest next)
  delivered-found (poll ∷ rest) s =
      ap (λ es. s.events ++ es) (delivered-found rest (poll_events s).1)
