-- ===== src/Db/Store/Refines/Tests.antt =====
-- The refinement on the sample bank.
use go2bank.Prelude.{ℕ, ◌≡◌, refl, ◌≢◌, false, arith}
use go2bank.Prelude.Int.{pos, leb_ℤ}
use go2bank.Db.Account.Rows.{find_account}
use go2bank.Db.Store.{transfer_tx}
use go2bank.Db.Store.Refines.{is_ok, accepts, transferred, transfer_tx-refines, funds}
use go2bank.Samples.{payment, bank}

apart : payment.from_account_id ≢ payment.to_account_id
apart h = absurd (omega (arith, h))

transfer_tx-refines_example :
    ((id : ℕ)
      → funds (transfer_tx payment bank).1.tables id ≡ transferred payment (funds bank.tables) id)
    × (is_ok (transfer_tx payment bank).0 ≡ accepts payment (funds bank.tables))
transfer_tx-refines_example = transfer_tx-refines payment bank apart refl refl

-- More than the balance, and an account that does not exist.
refused :
    (accepts (record payment { from_amount = pos 101 }) (funds bank.tables) ≡ false)
    × (accepts (record payment { to_account_id = 9 }) (funds bank.tables) ≡ false)
unfolding find_account leb_ℤ
refused = (refl, refl)
