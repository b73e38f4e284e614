-- ===== src/Examples/Wallets.antt =====
-- The wallet of one forecaster, entry by entry.
use gotrendlabs.Prelude.{◌≡◌, true, some, [], ◌∷◌, refl, arith}
use gotrendlabs.Prelude.Int.{pos, ◌+ℤ◌}
use gotrendlabs.Wallet.{
  Wallet, credit, manual_adjustment, admin_user_adjustment, record_wallet_entry,
}
use gotrendlabs.Wallet.Consistency.{IsConsistent, record_wallet_entry-IsConsistent}
use gotrendlabs.Wallet.Effects.{available_of, locked_of}
use gotrendlabs.Position.Wallets.{revision_wallet, revision_own}
use gotrendlabs.Lifecycle.Settlement.{settle_wallet, settled}
use gotrendlabs.Lifecycle.Undo.{undo_wallet, payouts_of}
use gotrendlabs.Lifecycle.Undoing.{undo_wallet-settle_wallet}
use gotrendlabs.Examples.Settlements.{
  accept, engine, stake_of_80, wallet_of_80, wallet_of_80-IsConsistent,
}

record_wallet_entry-IsConsistent_example : IsConsistent (
    record_wallet_entry 5 manual_adjustment 30 credit
      (admin_user_adjustment 5)
      (some 9)
      wallet_of_80)
record_wallet_entry-IsConsistent_example =
    record_wallet_entry-IsConsistent 5 manual_adjustment 30 credit (admin_user_adjustment 5)
      (some 9) wallet_of_80 wallet_of_80-IsConsistent

revision_own_example :
    let w' = revision_wallet 5 (stake_of_80 ∷ []) 64 16 2 wallet_of_80 in
    (available_of 5 w' ≡ available_of 5 wallet_of_80)
    × (locked_of 5 w' +ℤ pos 16 ≡ locked_of 5 wallet_of_80)
revision_own_example = revision_own 5 5 (stake_of_80 ∷ []) 64 16 2 wallet_of_80 refl refl

-- A second resolution, after a first one that was undone, is undone as well.
abbrev resolved_once : Wallet
resolved_once =
    undo_wallet engine (settled true 30 stake_of_80)
      (settle_wallet engine true stake_of_80 wallet_of_80)

undo_wallet-settle_wallet_example :
    let w' =
      undo_wallet engine
        (settled true 50 stake_of_80)
        (settle_wallet engine true stake_of_80 resolved_once) in
    (available_of 5 w' +ℤ pos (payouts_of 1 resolved_once.ledger) ≡ available_of 5 resolved_once)
    × (locked_of 5 w' ≡ locked_of 5 resolved_once)
undo_wallet-settle_wallet_example =
    undo_wallet-settle_wallet (some 9) accept accept accept accept accept 5 stake_of_80 50
      resolved_once refl (omega arith) true
