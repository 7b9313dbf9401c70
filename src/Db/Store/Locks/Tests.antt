-- ===== src/Db/Store/Locks/Tests.antt =====
-- Two transfers between the same two accounts, one each way.
use go2bank.Prelude.{◌≤◌, ◌<◌, ◌≡◌, refl, ◌⊎◌, List, [], ◌∷◌}
use go2bank.Prelude.Int.{pos, negsuc}
use go2bank.Prelude.Word.{neg_int64}
use go2bank.Db.Query.{pure, ◌>>=◌}
use go2bank.Db.Store.{move_money, swap, add_money}
use go2bank.Db.Store.Locks.{
  second_locked, locks_first, move_money-order, Txn, moves, first_locked, waits_second, LockStep,
  LockRun, ended, waits_first, stays,
}
use go2bank.Db.Store.Locks.Choice.{All}
use go2bank.Db.Store.Locks.Progress.{LockRun-ends, work}
use go2bank.Samples.{payment, bank}

abbrev there : Txn
there = record { arg = payment; phase = waits_first }

abbrev back : Txn
back = record {
  arg = record payment { from_account_id = 2; to_account_id = 1 };
  phase = waits_first;
}

-- Both lock account 1 first.
same_order : (first_locked payment ≡ 1) × (first_locked back.arg ≡ 1)
unfolding first_locked
same_order = (refl, refl)

abbrev midway : List Txn
midway = record there { phase = waits_second } ∷ back ∷ []

one_step : LockRun (there ∷ back ∷ []) 1 midway
one_step = moves stays (locks_first [] there (back ∷ []) refl refl refl)

LockRun-ends_example :
    ((1 < work (there ∷ back ∷ [])) × (after : List Txn) × LockStep midway after)
    ⊎ ((1 ≡ work (there ∷ back ∷ [])) × All (λ t. t.phase ≡ ended) midway)
LockRun-ends_example = LockRun-ends one_step

move_money-order_example :
    (move_money back.arg bank
      ≡ (add_money 1 (pos 15) 2 (negsuc 29) >>= λ both. pure (swap both)) bank)
    × (1 ≤ 2)
unfolding first_locked second_locked neg_int64
move_money-order_example = move_money-order back.arg bank
