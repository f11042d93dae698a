-- ===== src/Locker/Notify.antt =====
-- What `unlock` does on each branch, and what its callers can rely on.
use native.Mathlib.Omega.{arith}
use olricdb.Prelude.{
  ℕ, ◌≡◌, refl, ap, subst, inl, inr, true, false, not, some, List, Text, text_eq, ◌==◌, ==_iff,
  ==_refl, text_beq, text_beq_iff, if◌then◌else◌, Outcome, ok, fails, panics, Bool-cases,
}
use olricdb.Prelude.Dict.{Dict, lookup, erase, lookup-insert, lookup-erase}
use olricdb.Locker.{
  LockCtr, Waiter, Locker, Error, no_such_lock, update, join_ctr, add_ctr, lock_enter, lock_acquire,
  release, unlock, check, unlock_notifier,
}

abbrev released : Locker → ℕ → Locker
released l p = record l {
  ctrs = update l.ctrs p (record (l.ctrs p) { locked = false });
  closed = update l.closed (l.ctrs p).done true;
}

-- The map after `unlock`: the name stays while calls of `lock` wait.
abbrev pub kept_locks : Locker → Text → ℕ → Dict Text ℕ
kept_locks l name p = if (l.ctrs p).waiters == 0 then erase name l.locks else l.locks

unlock_held :
    (l : Locker) (name : Text) (p : ℕ)
    → lookup name l.locks ≡ some p
    → (l.ctrs p).locked ≡ true
    → unlock l name ≡ ok (released (record l { locks = kept_locks l name p }) p)
unfolding unlock release
unlock_held l name p q held = rw (q, unlock) (rw (held, release) refl)

-- What an `unlock` that succeeds leaves.
pub record IsUnlocked (l l' : Locker) (name : Text) (p : ℕ) : Type 0 where
  pub free : (l'.ctrs p).locked ≡ false
  pub notified : l'.closed (l.ctrs p).done ≡ true
  pub known : check l' name ≡ not ((l.ctrs p).waiters == 0)
  pub others : (j : Text) → text_beq name j ≡ false → check l' j ≡ check l j

-- `unlock` of a name whose lock is held succeeds: the lock is free, the channel that its `done`
-- field points to is closed, the name stays known exactly if some call of `lock` waits, and other
-- names stay as they were.
pub unlock_lem :
    (l : Locker) (name : Text) (p : ℕ)
    → lookup name l.locks ≡ some p
    → (l.ctrs p).locked ≡ true
    → (l' : Locker) × (unlock l name ≡ ok l') × IsUnlocked l l' name p
unfolding check update
unlock_lem l name p q held = (
  released (record l { locks = kept_locks l name p }) p,
  unlock_held l name p q held,
  record {
    free = ground arith;
    notified = ground arith;
    known = ground (arith, lookup-erase name name l.locks, text_beq_iff name name, q);
    others = λ j ne. ground (arith, lookup-erase name j l.locks);
  },
)

-- `unlock` returns ErrNoSuchLock on a name that `check` does not know, and on no other name.
pub unlock-no_such_lock :
    (l : Locker) (name : Text)
    → (check l name ≡ false → unlock l name ≡ fails no_such_lock)
      × (unlock l name ≡ fails no_such_lock → check l name ≡ false)
unfolding unlock check release
unlock-no_such_lock l name = (λ h. ground arith, λ h. ground arith)

-- On a name that the locker does not know, an `unlock` between the first part of `lock`, which adds
-- the name to the map, and the taking of the mutex panics.
pub unlock_too_early :
    (l : Locker) (name : Text) → check l name ≡ false → unlock (lock_enter l name) name ≡ panics
unfolding check unlock lock_enter join_ctr add_ctr update release
unlock_too_early l name h =
    ground (arith, lookup-insert name name l.next_ctr l.locks, text_beq_iff name name)

ok_inj : (a b : Locker) → (o : Outcome Error Locker) → o ≡ ok a → o ≡ ok b → a ≡ b
ok_inj a b o q r = cc

unlocked_same :
    (l l' : Locker) (name : Text) (p : ℕ)
    → lookup name l.locks ≡ some p
    → (l.ctrs p).locked ≡ true
    → unlock l name ≡ ok l'
    → released (record l { locks = kept_locks l name p }) p ≡ l'
unlocked_same l l' name p q held e = ok_inj _ _ (unlock l name) (unlock_held l name p q held) e

released_done : (l : Locker) (p : ℕ) → ((released l p).ctrs p).done ≡ (l.ctrs p).done
unfolding update
released_done l p = ground (arith, ==_refl p)

released_closed : (l : Locker) (p : ℕ) → (released l p).closed (l.ctrs p).done ≡ true
unfolding update
released_closed l p = ground (arith, ==_refl (l.ctrs p).done)

update_done :
    (f : ℕ → LockCtr) (w p : ℕ) → (update f w (record (f w) { locked = true }) p).done ≡ (f p).done
unfolding update
update_done f w p = elim (Bool-cases (p == w)) [
  | inl y ↦ rw ((==_iff p w).0 y, ==_refl w) refl
  | inr n ↦ rw n refl
]

acquire_notifier :
    (l : Locker) (name : Text) (p : ℕ) (before : List Waiter) (w : Waiter) (behind : List Waiter)
    → lookup name l.locks ≡ some p
    → unlock_notifier (lock_acquire l before w behind) name ≡ some (l.ctrs p).done
unfolding lock_acquire unlock_notifier update
acquire_notifier l name p before w behind q =
    rw (q, unlock_notifier) (ap some (update_done l.ctrs w.ctr p))

-- After an `unlock` of a held lock that leaves its name in the map, the waiter that takes the lock
-- next holds it while the channel that `unlockNotifier` gives for the name is closed already.
pub notified_early :
    (l l' : Locker) (name : Text) (p : ℕ) (before : List Waiter) (w : Waiter) (behind : List Waiter)
    → lookup name l.locks ≡ some p
    → (l.ctrs p).locked ≡ true
    → unlock l name ≡ ok l'
    → lookup name l'.locks ≡ some p
    → w.ctr ≡ p
    → (((lock_acquire l' before w behind).ctrs p).locked ≡ true)
      × (chan : ℕ) × (unlock_notifier (lock_acquire l' before w behind) name ≡ some chan)
      × ((lock_acquire l' before w behind).closed chan ≡ true)
unfolding lock_acquire update
notified_early l l' name p before w behind q held e known on =
    let same = unlocked_same l l' name p q held e in
    let l1 : Locker = record l { locks = kept_locks l name p } in
    (
      ground (arith, ==_refl p),
      (l'.ctrs p).done,
      acquire_notifier l' name p before w behind known,
      subst (λ s. s.closed (s.ctrs p).done ≡ true) same
          (rw (released_done l1 p) (released_closed l1 p)),
    )
