-- ===== src/Locker.antt =====
-- locker.go: named locks. The mutex of the map makes each call up to the wait one step; a lock is an
-- object that the map and the goroutines in `lock` point to.
pub mod Invariant
pub mod Notify
mod Tests
use olricdb.Prelude.{
  ℕ, ◌+◌, ◌-◌, ◌≡◌, Bool, true, false, Option, none, some, List, [], ◌∷◌, ◌++◌, Text, text_eq, ◌==◌,
  if◌then◌else◌, Outcome, ok, fails, panics, length,
}
use olricdb.Prelude.Dict.{Dict, lookup, insert, erase}

pub data Error : Type 0 where
  no_such_lock : Error

-- `locked` is the state of the mutex, `done` the channel that the field points to.
pub record LockCtr : Type 0 where
  pub locked : Bool
  pub waiters : ℕ
  pub done : ℕ

-- A goroutine inside `lock`, behind the map's mutex: `acquired` once `nameLock.lock()` has returned.
pub record Waiter : Type 0 where
  pub name : Text
  pub ctr : ℕ
  pub acquired : Bool

-- The locker with its lock objects and channels: `ctrs` and `closed` are read below `next_ctr` and
-- `next_chan` only. `waiting` are the calls of `lock` that have not returned.
pub record Locker : Type 0 where
  pub locks : Dict Text ℕ
  pub ctrs : ℕ → LockCtr
  pub closed : ℕ → Bool
  pub next_ctr : ℕ
  pub next_chan : ℕ
  pub waiting : List Waiter

unfoldable pub update {ℓ} : {A : Type ℓ} → (ℕ → A) → ℕ → A → ℕ → A
update f p a i = if i == p then a else f i

abbrev pub new_ctr : LockCtr
new_ctr = record { locked = false; waiters = 0; done = 0 }

abbrev pub new_locker : Locker
new_locker = record {
  locks = [];
  ctrs = λ _. new_ctr;
  closed = λ _. false;
  next_ctr = 0;
  next_chan = 0;
  waiting = [];
}

unfoldable pub length_locks : Locker → ℕ
length_locks l = length l.locks

unfoldable pub check : Locker → Text → Bool
check l name = elim (lookup name l.locks) [ none ↦ false | some _ ↦ true ]

unfoldable pub unlock_notifier : Locker → Text → Option ℕ
unlock_notifier l name = elim (lookup name l.locks) [ none ↦ none | some p ↦ some (l.ctrs p).done ]

-- `nameLock.inc()` and the new `done` channel.
unfoldable pub join_ctr : Locker → Text → ℕ → Locker
unfolding update
join_ctr l name p = record l {
  ctrs =
      update l.ctrs p (record (l.ctrs p) { waiters = (l.ctrs p).waiters + 1; done = l.next_chan });
  closed = update l.closed l.next_chan false;
  next_chan = l.next_chan + 1;
  waiting = record { name = name; ctr = p; acquired = false } ∷ l.waiting;
}

-- The lock object that `lock` makes where the name has none.
unfoldable pub add_ctr : Locker → Text → Locker
unfolding update
add_ctr l name = record l {
  locks = insert name l.next_ctr l.locks;
  ctrs = update l.ctrs l.next_ctr new_ctr;
  next_ctr = l.next_ctr + 1;
}

-- `lock` up to `l.mu.Unlock()`.
unfoldable pub lock_enter : Locker → Text → Locker
unfolding join_ctr add_ctr
lock_enter l name = elim (lookup name l.locks) [
  | some p ↦ join_ctr l name p
  | none ↦ join_ctr (add_ctr l name) name l.next_ctr
]

-- `nameLock.lock()` returns for the waiter `w`; the others of `waiting` are `before` and `behind`.
unfoldable pub lock_acquire : Locker → List Waiter → Waiter → List Waiter → Locker
unfolding update
lock_acquire l before w behind = record l {
  ctrs = update l.ctrs w.ctr (record (l.ctrs w.ctr) { locked = true });
  waiting = before ++ (record w { acquired = true } ∷ behind);
}

-- `nameLock.dec()`, and `lock` returns.
unfoldable pub lock_leave : Locker → List Waiter → Waiter → List Waiter → Locker
unfolding update
lock_leave l before w behind = record l {
  ctrs = update l.ctrs w.ctr (record (l.ctrs w.ctr) { waiters = (l.ctrs w.ctr).waiters - 1 });
  waiting = before ++ behind;
}

-- `nameLock.unlock()` and the close of `done`, unless that is closed. A mutex that is not locked
-- stops the program.
unfoldable pub release : Locker → ℕ → Outcome Error Locker
unfolding update
release l p =
    let c = l.ctrs p in
    if c.locked
    then ok (record l {
      ctrs = update l.ctrs p (record c { locked = false });
      closed = update l.closed c.done true;
    })
    else panics

unfoldable pub unlock : Locker → Text → Outcome Error Locker
unfolding release
unlock l name = elim (lookup name l.locks) [
  | none ↦ fails no_such_lock
  | some p ↦
      let kept = if (l.ctrs p).waiters == 0 then erase name l.locks else l.locks in
      release (record l { locks = kept }) p
]

-- What the goroutines of a node do to the locker, one step at a time, in any order.
pub data Step (l : Locker) : Locker → Type 0 where
  enters : (name : Text) → Step l (lock_enter l name)
  acquires :
      (before : List Waiter) (w : Waiter) (behind : List Waiter)
      → l.waiting ≡ before ++ (w ∷ behind)
      → w.acquired ≡ false
      → (l.ctrs w.ctr).locked ≡ false
      → Step l (lock_acquire l before w behind)
  leaves :
      (before : List Waiter) (w : Waiter) (behind : List Waiter)
      → l.waiting ≡ before ++ (w ∷ behind)
      → w.acquired ≡ true
      → Step l (lock_leave l before w behind)
  unlocks : (name : Text) {l' : Locker} → unlock l name ≡ ok l' → Step l l'

pub data Reach : Locker → Type 0 where
  start : Reach new_locker
  next : {l l' : Locker} → Reach l → Step l l' → Reach l'
