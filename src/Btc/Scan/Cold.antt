-- ===== src/Btc/Scan/Cold.antt =====
-- `cold_wallet_worker` of hexstody-btc/src/worker.rs.
use hexstody.Prelude.{
  ℕ, ◌+◌, ◌-◌, ◌≤◌, ◌<◌, ◌≡◌, ◌⊎◌, inl, inr, refl, true, none, some, arith, ltb, if◌then◌else◌,
}
use hexstody.Prelude.Fallible.{Fallible, ok, err}
use hexstody.Prelude.Words.{u64_mod}
use hexstody.Update.Btc.{Address}
use hexstody.Btc.{Node}

-- What is sent to the cold wallet; the sum of two amounts panics where it overflows.
pub data Dump : Type 0 where
  keep panics : Dump
  send : ℕ → Dump

unfoldable pub dump : ℕ → ℕ → Dump
dump cold_amount bal =
    if ltb cold_amount bal
    then if ltb (cold_amount + cold_amount) u64_mod
      then send (if ltb (cold_amount + cold_amount) bal then bal - cold_amount else cold_amount)
      else panics
    else keep

dump-cases :
    (cold bal : ℕ)
    → cold + cold < u64_mod
    → ((bal ≤ cold) × (dump cold bal ≡ keep))
      ⊎ ((amount : ℕ) × (dump cold bal ≡ send amount)
          × (cold < bal)
          × (cold ≤ amount)
          × (amount ≤ bal)
          × (bal ≤ amount + cold)
          × ((amount ≡ cold) ⊎ (bal ≡ amount + cold)))
unfolding dump
dump-cases cold bal hc = ground arith

-- One turn of the loop, when it is woken; a failed payment is only logged.
module _ {N E : Type 0} (node : Node N E) where
  abbrev sent_after : Dump → Address → N → N
  sent_after (send amount) cold_address n =
      (node.send_to_address cold_address amount none (some true) n).1
  sent_after _ cold_address n = n

  abbrev balanced : Fallible E ℕ → ℕ → Address → N → N
  balanced (ok bal) cold_amount cold_address n = sent_after (dump cold_amount bal) cold_address n
  balanced (err e) cold_amount cold_address n = n

  unfoldable pub cold_round : ℕ → Address → N → N
  unfolding dump
  cold_round cold_amount cold_address n =
      balanced (node.get_balance (some 3) n) cold_amount cold_address n

  -- If the node tells a balance, and twice the amount to keep fits into a `u64`, then a round
  -- leaves the node as it is where the balance is at most the amount to keep. Otherwise it has the
  -- node send an amount that is at least the amount to keep and at most the balance, and leaves at
  -- most the amount to keep. Either the amount sent is the amount to keep, or what is left is.
  pub cold_round-bounds :
      (cold bal : ℕ) (cold_address : Address) (n : N)
      → node.get_balance (some 3) n ≡ ok bal
      → cold + cold < u64_mod
      → ((bal ≤ cold) × (cold_round cold cold_address n ≡ n))
        ⊎ ((amount : ℕ) × (cold_round cold cold_address n
              ≡ (node.send_to_address cold_address amount none (some true) n).1)
            × (cold < bal)
            × (cold ≤ amount)
            × (amount ≤ bal)
            × (bal ≤ amount + cold)
            × ((amount ≡ cold) ⊎ (bal ≡ amount + cold)))
  unfolding cold_round dump
  cold_round-bounds cold bal cold_address n held fits = elim (dump-cases cold bal fits) [
    | inl (low, kept) ↦ inl (low, rw (cold_round, held, kept) refl)
    | inr (amount, sent, above, least, most, left, kept) ↦
        inr (amount, rw (cold_round, held, sent) refl, above, least, most, left, kept)
  ]
