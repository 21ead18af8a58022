-- ===== src/Btc/Misc.antt =====
-- The addresses, fees and balances of hexstody-btc/src/api/public.rs, with the errors of
-- hexstody-btc/src/api/error.rs.
use Prim.Native.String.{◌++◌}
use hexstody.Prelude.{ℕ, Option, none, some, String}
use hexstody.Prelude.Int.{ℤ}
use hexstody.Prelude.Fallible.{Fallible, ok, map_ok, map_err}
use hexstody.Domain.Requests.{FeeResponse, HotBalanceResponse}
use hexstody.Update.Btc.{Address}
use hexstody.Btc.{Node}
use hexstody.Btc.Withdraw.{Failure}

-- `Error` of the adapter
pub data AdapterError (E A : Type 0) : Type 0 where
  node_rpc : E → AdapterError E A
  debug_not_enabled : AdapterError E A
  address_parse : A → AdapterError E A

module _ {E A : Type 0} where
  unfoldable pub error_code : AdapterError E A → ℕ
  error_code (node_rpc e) = 0
  error_code debug_not_enabled = 1
  error_code (address_parse e) = 2

  unfoldable pub error_status : AdapterError E A → ℕ
  error_status (node_rpc e) = 500
  error_status debug_not_enabled = 500
  error_status (address_parse e) = 400

  -- `From<Error>`, with the text that the error is displayed as
  unfoldable pub to_failure : (AdapterError E A → String) → AdapterError E A → Failure
  unfolding error_code error_status
  to_failure display e = record {
    status = error_status e;
    message = display e;
    code = error_code e;
  }

abbrev fee_from : {E : Type 0} → Fallible E (Option ℕ × ℤ) → FeeResponse
fee_from (ok (some rate, blocks)) = record { fee_rate = rate; block = some blocks }
fee_from _ = record { fee_rate = 5; block = none }

module _ {N E : Type 0} (node : Node N E) where
  -- The rate that the node estimates, or 5.
  unfoldable pub get_fees : N → FeeResponse
  get_fees n = fee_from (node.estimate_smart_fee n)

  unfoldable pub get_hot_wallet_balance : N → Fallible Failure HotBalanceResponse
  get_hot_wallet_balance n =
      map_ok (λ sat. record { balance = sat })
        (map_err
          (λ e. record {
            status = 500;
            message = "Failed get the balance: " ++ node.debug e;
            code = 500;
          })
          (node.get_balance none n))

  unfoldable pub get_deposit_address :
      {A : Type 0} → (AdapterError E A → String) → N → Fallible Failure Address × N
  unfolding to_failure
  get_deposit_address display n =
      let (address, n') = node.get_new_address n in
      (map_err (λ e. to_failure display (node_rpc e)) address, n')
