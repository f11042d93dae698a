-- ===== src/Locker/Tests.antt =====
-- The locker's theorems on concrete states.
use olricdb.Prelude.{ℕ, ◌≡◌, refl, true, false, some, [], ◌∷◌, Text, text_eq, ok, All}
use olricdb.Prelude.Dict.{lookup}
use olricdb.Locker.{
  Locker, Waiter, new_locker, update, lock_enter, lock_acquire, lock_leave, unlock, check,
  unlock_notifier, start, next, enters, join_ctr, add_ctr, release,
}
use olricdb.Locker.Invariant.{count, waiting_kept}
use olricdb.Locker.Notify.{notified_early}

abbrev name : Text
name = 107 ∷ []

abbrev entered : Locker
entered = lock_enter new_locker name

waiting_kept_example :
    All (λ w. lookup w.name entered.locks ≡ some w.ctr) entered.waiting
    × ((p : ℕ) → (entered.ctrs p).waiters ≡ count p entered.waiting)
waiting_kept_example = waiting_kept (next start (enters name))

abbrev waiter : Waiter
waiter = record { name = name; ctr = 0; acquired = false }

-- A first call has the lock, a second one waits.
abbrev contended : Locker
contended =
    lock_enter
      (lock_leave (lock_acquire entered [] waiter []) [] (record waiter { acquired = true }) [])
      name

contended_known : lookup name contended.locks ≡ some 0
unfolding lock_enter lock_acquire lock_leave join_ctr add_ctr update
contended_known = refl

contended_held : (contended.ctrs 0).locked ≡ true
unfolding lock_enter lock_acquire lock_leave join_ctr add_ctr update
contended_held = refl

new_locker-check : check new_locker name ≡ false
unfolding check
new_locker-check = refl

unlocked : (l' : Locker) × (unlock contended name ≡ ok l') × (lookup name l'.locks ≡ some 0)
unfolding unlock lock_enter lock_acquire lock_leave join_ctr add_ctr update release
unlocked = (_, refl, refl)

notified_early_example :
    (((lock_acquire unlocked.0 [] waiter []).ctrs 0).locked ≡ true)
    × (chan : ℕ) × (unlock_notifier (lock_acquire unlocked.0 [] waiter []) name ≡ some chan)
    × ((lock_acquire unlocked.0 [] waiter []).closed chan ≡ true)
notified_early_example =
    notified_early contended unlocked.0 name 0 [] waiter [] contended_known contended_held
      unlocked.1 unlocked.2 refl
