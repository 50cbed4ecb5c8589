-- ===== src/Escrow/Wallets.antt =====
-- What the payout of backend/src/services/escrow.service.ts does to every wallet.
use hop_drop.Collection.Laws.{find_by_id-update_self, find_by_id-update_ne}
use hop_drop.Collection.{find_by_id}
use hop_drop.Model.User.{User}
use hop_drop.Escrow.{Payout, create_transactions, pay_out}
use hop_drop.Common.{sym, ◌∙◌, ℕ, ◌+◌, ◌≡◌, ◌≢◌, some}
use hop_drop.Common.Int.{◌+ℤ◌, ◌-ℤ◌, clip, pos}
use hop_drop.Store.{Store}

-- A payout gives the deposit and the earning to the carrier, takes the deposit out of what is held
-- of the carrier and the payment out of what is held of the sender, neither below 0, and leaves
-- every other user as before.
pub pay_out-wallets :
    (match carrier sender k : ℕ) (p : Payout) (paid : ℕ) (s : Store) (c d : User)
    → carrier ≢ sender
    → find_by_id carrier s.users ≡ some c
    → find_by_id sender s.users ≡ some d
    → carrier ≢ k
    → sender ≢ k
    → let s' = pay_out match carrier sender p paid s in
      (find_by_id carrier s'.users
        ≡ some (record c {
          wallet = record {
            balance = c.wallet.balance +ℤ pos (p.deposit_amount + p.payout_to_carrier);
            escrow_held = clip (c.wallet.escrow_held -ℤ pos p.deposit_amount);
          };
        }))
      × (find_by_id sender s'.users
          ≡ some (record d {
            wallet = record {
              balance = d.wallet.balance;
              escrow_held = clip (d.wallet.escrow_held -ℤ pos paid);
            };
          }))
      × (find_by_id k s'.users ≡ find_by_id k s.users)
unfolding pay_out create_transactions
pay_out-wallets match carrier sender k p paid s c d differ fc fd nc ns = (
  find_by_id-update_ne carrier sender _ _ (λ e. differ (sym e))
      ∙ find_by_id-update_self carrier _ s.users fc,
  find_by_id-update_self sender _ _ (find_by_id-update_ne sender carrier _ s.users differ ∙ fd),
  find_by_id-update_ne k sender _ _ ns ∙ find_by_id-update_ne k carrier _ s.users nc,
)
