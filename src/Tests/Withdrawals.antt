-- ===== src/Tests/Withdrawals.antt =====
-- Decisions on withdrawal requests.
use hexstody.Prelude.{◌≡◌, refl, ◌≤◌, [], ◌∷◌, Option, none, some, arith, length, true, false}
use hexstody.Prelude.Int.{pos, negsuc, ◌-ℤ◌, ◌+ℤ◌}
use hexstody.Prelude.Words.{sub_i16, add_i16, wrap}
use hexstody.Domain.Types.{confirm, reject}
use hexstody.Update.Withdrawal.{WithdrawalRequestId}
use hexstody.State.Core.{ok}
use hexstody.State.Withdraw.{WithdrawalRequest, in_progress, confirmed, op_rejected}
use hexstody.State.Withdrawals.{decide, decided_by, confirm_request, reject_request}
use hexstody.State.Withdrawals.Keys.{DistinctKeys}
use hexstody.State.Withdrawals.Counting.{IsCounted, decide-IsCounted}
use hexstody.State.Withdrawals.Outcome.{decide-confirmed, decide-op_rejected, decide_overshoots}
use hexstody.Prelude.{if◌then◌else◌, nat_eq}
use hexstody.Prelude.Dict.{lookup}
use hexstody.State.Withdraw
use hexstody.State.User.{UserCurrencyInfo, put_request}
use hexstody.State.User.Net.{net}
use hexstody.State.Withdrawals.Funds.{net-decide}
use hexstody.Tests.Data.{account, decision, request, by_key}

abbrev no_result : Option WithdrawalRequestId
no_result = none

-- One confirmation, and what a second key makes of it.
abbrev once : WithdrawalRequest
once = request (pos 1) (by_key 1 ∷ []) []

abbrev twice : WithdrawalRequest
twice = record (request (pos 1) (by_key 1 ∷ by_key 2 ∷ []) []) { status = confirmed }

abbrev refused : WithdrawalRequest
refused = request (negsuc 0) [] (by_key 1 ∷ [])

abbrev refused_twice : WithdrawalRequest
refused_twice = record (request (pos 0) [] (by_key 1 ∷ by_key 2 ∷ [])) { status = op_rejected }

-- Two for, one against, who then turns.
abbrev split_vote : WithdrawalRequest
split_vote = request (pos 1) (by_key 1 ∷ by_key 2 ∷ []) (by_key 3 ∷ [])

abbrev overshot : WithdrawalRequest
overshot = request (pos 3) (by_key 1 ∷ by_key 2 ∷ by_key 3 ∷ []) []

abbrev overshot_more : WithdrawalRequest
overshot_more = request (pos 4) (by_key 1 ∷ by_key 2 ∷ by_key 3 ∷ by_key 4 ∷ []) []

once-IsCounted : IsCounted once
unfolding decided_by
once-IsCounted = record {
  confirmed_once = (refl, tt);
  rejected_once = tt;
  one_side = (refl, tt);
  tallied = refl;
}

refused-IsCounted : IsCounted refused
unfolding decided_by
refused-IsCounted = record {
  confirmed_once = tt;
  rejected_once = (refl, tt);
  one_side = tt;
  tallied = refl;
}

overshot-IsCounted : IsCounted overshot
unfolding decided_by
overshot-IsCounted = record {
  confirmed_once = (refl, (refl, (refl, tt)));
  rejected_once = tt;
  one_side = (refl, (refl, (refl, tt)));
  tallied = refl;
}

decide-once : decide (decision 2 confirm) once ≡ ok (some 7, twice)
unfolding decide confirm_request decided_by sub_i16 wrap ◌-ℤ◌
decide-once = refl

decide-refused : decide (decision 2 reject) refused ≡ ok (none, refused_twice)
unfolding decide reject_request decided_by sub_i16 wrap ◌-ℤ◌
decide-refused = refl

decide-overshot : decide (decision 4 confirm) overshot ≡ ok (none, overshot_more)
unfolding decide confirm_request decided_by sub_i16 add_i16 wrap ◌-ℤ◌ ◌+ℤ◌
decide-overshot = refl

decide-IsCounted_example : IsCounted twice
decide-IsCounted_example =
    decide-IsCounted (decision 2 confirm) once {res = some 7} {req' = twice} (omega arith)
      once-IsCounted decide-once

decide-confirmed_example :
    (twice.status ≡ confirmed)
    × (7 ≡ once.id)
    × (confirm ≡ confirm)
    × (2 ≤ length twice.confirmations)
    × DistinctKeys twice.confirmations
decide-confirmed_example =
    decide-confirmed (decision 2 confirm) once {id = 7} {req' = twice} (omega arith) once-IsCounted
      decide-once

decide-op_rejected_example :
    (reject ≡ reject)
    × (no_result ≡ none)
    × (2 ≤ length refused_twice.rejections)
    × DistinctKeys refused_twice.rejections
decide-op_rejected_example =
    decide-op_rejected (decision 2 reject) refused {res = none} {req' = refused_twice} (omega arith)
      refused-IsCounted decide-refused refl

turned : decided_by 3 split_vote.rejections ≡ true
unfolding decided_by
turned = refl

not_yet : decided_by 3 split_vote.confirmations ≡ false
unfolding decided_by
not_yet = refl

decide_overshoots_example :
    (req' : WithdrawalRequest) × (decide (decision 3 confirm) split_vote ≡ ok (none, req'))
    × (req'.status ≡ in_progress (pos 3))
decide_overshoots_example =
    decide_overshoots (decision 3 confirm) split_vote refl refl not_yet turned

abbrev holder : UserCurrencyInfo
holder = record account { withdrawal_requests = (7, refused) ∷ [] }

refused_known : lookup 7 holder.withdrawal_requests ≡ some refused
unfolding lookup
refused_known = refl

net-decide_example :
    net (put_request 7 refused_twice holder)
    ≡ (if Withdraw.is_rejected refused_twice then net holder +ℤ pos 1000 else net holder)
net-decide_example =
    net-decide (decision 2 reject) holder refused {res = none} {req' = refused_twice} refused_known
      decide-refused
