-- ===== src/DMap/Locks/Sole.antt =====
-- Locks at the only owner of a key.
use native.Mathlib.Omega.{arith}
use olricdb.Prelude.{
  ℕ, ◌%◌, ◌≡◌, refl, ap, ◌∙◌, Bool, true, false, none, some, List, [], ◌∷◌, reverse, ==_refl,
  nat_eq, Text, text_eq, text_beq_iff, Outcome, ok, fails, panics,
}
use olricdb.Prelude.Dict.{lookup, lookup-insert}
use olricdb.Locker.{
  Locker, Waiter, lock_enter, join_ctr, add_ctr, lock_acquire, lock_leave, check, release, update,
}
use olricdb.Locker
use olricdb.Locker.Notify.{unlock_lem, unlock-no_such_lock}
use olricdb.Discovery.{Host, host_cmp}
use olricdb.DMap.{
  DMap, Shard, Node, Env, no_such_lock, Error, Result, and_then-ok, locate, get_hkey, get_dmap,
  primary_copy,
}
use olricdb.DMap.Local.{IsServed, get_shard_lem, get_dmap_lem}
use olricdb.DMap.Locks.{
  LockNode, LockResult, on_node, locker_of, set_locker, lock_first, lock_now, find_lock_key,
  find_among, save_lock, lock_at, lock_key, lock_with_timeout, or_no_such_lock, unlock_here,
  unlock_key, unlock,
}

unknown : (k : Locker) (key : Text) → check k key ≡ false → lookup key k.locks ≡ none
unfolding check
unknown k key h = ground arith

-- A lock that nobody has is taken at once, and is free again after its unlock.
record IsTaken (k : Locker) (key : Text) : Type 0 where
  after : Locker
  taken : lock_now k key ≡ ok after
  known : check after key ≡ true
  free : Locker
  released : Locker.unlock after key ≡ ok free
  forgotten : check free key ≡ false

module _ (k : Locker) (key : Text) where
  fresh : Bool → Waiter
  fresh got = record { name = key; ctr = k.next_ctr; acquired = got }

  entered : Locker
  unfolding join_ctr add_ctr
  entered = join_ctr (add_ctr k key) key k.next_ctr

  acquired : Locker
  unfolding entered fresh lock_acquire lock_leave
  acquired = lock_leave (lock_acquire entered [] (fresh false) k.waiting) [] (fresh true) k.waiting

  -- The counter of the new lock, before and after.
  entered_free : (entered.ctrs k.next_ctr).locked ≡ false
  unfolding entered join_ctr add_ctr update
  entered_free = rw (==_refl k.next_ctr) refl

  acquired_held : (acquired.ctrs k.next_ctr).locked ≡ true
  unfolding acquired entered fresh lock_acquire lock_leave join_ctr add_ctr update
  acquired_held = rw (==_refl k.next_ctr) refl

  acquired_waiters : (acquired.ctrs k.next_ctr).waiters ≡ 0
  unfolding acquired entered fresh lock_acquire lock_leave join_ctr add_ctr update
  acquired_waiters = rw (==_refl k.next_ctr) refl

  acquired_known : lookup key acquired.locks ≡ some k.next_ctr
  unfolding acquired entered fresh lock_acquire lock_leave join_ctr add_ctr
  acquired_known =
      lookup-insert key key k.next_ctr k.locks ∙ rw ((text_beq_iff key key).1 refl) refl

  entered_eq : check k key ≡ false → lock_enter k key ≡ entered
  unfolding lock_enter entered
  entered_eq h = rw (unknown k key h, lock_enter) refl

  first_waiter : lock_first entered entered.waiting ≡ ok acquired
  unfolding lock_first acquired entered fresh join_ctr add_ctr update
  first_waiter = rw (==_refl k.next_ctr) refl

  acquired_eq : check k key ≡ false → lock_now k key ≡ ok acquired
  unfolding lock_now lock_first acquired fresh
  acquired_eq h = ap (λ (e : Locker). lock_first e e.waiting) (entered_eq h) ∙ first_waiter

lock_now_lem : (k : Locker) (key : Text) → check k key ≡ false → IsTaken k key
unfolding check
lock_now_lem k key h =
    let (free, q, u) =
      unlock_lem (acquired k key) key k.next_ctr (acquired_known k key) (acquired_held k key) in
    record {
      after = acquired k key;
      taken = acquired_eq k key h;
      known = rw (acquired_known k key, check) refl;
      free = free;
      released = q;
      forgotten = u.known ∙ rw (acquired_waiters k key) refl;
    }

on_node-ok :
    {A B : Type 0} (l : LockNode) (f : LockNode → A → LockResult B) (r : Result A) (a : A)
    → r ≡ (l.node, ok a)
    → on_node l r f ≡ f l a
unfolding on_node
on_node-ok l f r a q = ap (λ x. on_node l x f) q

-- A node that serves the DMap as the only owner of the key's partition.
pub record IsSole (env : Env) (n : Node) (name key : Text) : Type 0 where
  pub shard : Shard
  pub dmap : DMap
  pub owner : Host
  pub member : Host
  pub served : IsServed n (get_hkey env name key) name shard dmap
  pub alone : shard.part.owners ≡ owner ∷ []
  pub owned : host_cmp n.this owner ≡ true
  pub located : locate n false (get_hkey env name key) ≡ (n, ok member)
  pub here : host_cmp member n.this ≡ true

host_cmp_refl : (h : Host) → host_cmp h h ≡ true
unfolding host_cmp
host_cmp_refl h = rw ((text_beq_iff h.name h.name).1 refl, ==_refl h.birthdate) refl

module _ (env : Env) (name key : Text) where
  find_sole :
      (n : Node)
      → IsSole env n name key
      → find_lock_key env n (get_hkey env name key) name key ≡ (n, ok n.this)
  unfolding find_lock_key find_among
  find_sole n w =
      and_then-ok _ _ n w.shard
        (get_shard_lem n (get_hkey env name key) name w.shard w.dmap w.served)
      ∙ ap by_owners w.alone
      ∙ rw w.owned refl
    where
      by_owners : List Host → Result Host
      by_owners os = elim os [
        | [] ↦ (n, panics)
        | p ∷ ps ↦ find_among env name key (reverse (p ∷ ps)) n
      ]

  module _ (l : LockNode) (w : IsSole env l.node name key) where
    served_dmap :
        get_dmap env primary_copy l.node (get_hkey env name key) name ≡ (l.node, ok w.dmap)
    served_dmap = get_dmap_lem env l.node (get_hkey env name key) name w.shard w.dmap w.served

    lock_sole :
        (timeout : ℕ) (k : Locker)
        → check (locker_of l (get_hkey env name key) name) key ≡ false
        → lock_now (locker_of l (get_hkey env name key) name) key ≡ ok k
        → lock_with_timeout env l false name key timeout
          ≡ (set_locker l (get_hkey env name key) name k, ok tt)
    unfolding lock_with_timeout lock_key lock_at save_lock
    lock_sole timeout k new taken =
        on_node-ok l _ _ w.member w.located
        ∙ rw w.here (
            on_node-ok l _ _ w.dmap served_dmap
            ∙ rw new (
                on_node-ok l _ _ l.node.this (find_sole l.node w)
                ∙ rw (host_cmp_refl l.node.this, taken) refl))

    unlock_sole :
        (r : Outcome Error Locker)
        → or_no_such_lock (Locker.unlock (locker_of l (get_hkey env name key) name) key) ≡ r
        → unlock env l false name key ≡ save_lock l (get_hkey env name key) name r
    unfolding unlock unlock_key unlock_here
    unlock_sole r q =
        on_node-ok l _ _ w.member w.located
        ∙ rw w.here (
            on_node-ok l _ _ l.node.this (find_sole l.node w)
            ∙ rw (host_cmp_refl l.node.this) (
                on_node-ok l _ _ w.dmap served_dmap
                ∙ ap (save_lock l (get_hkey env name key) name) q))

locker_set :
    (l : LockNode) (hkey : ℕ) (name : Text) (k : Locker)
    → locker_of (set_locker l hkey name k) hkey name ≡ k
locker_set l hkey name k =
    rw (==_refl (hkey % l.node.config.partition_count), (text_beq_iff name name).1 refl) refl

-- On a node that serves the DMap as the only owner of the key's partition, where nobody has the
-- key's lock and no other call takes a step: the lock is taken, the unlock after it succeeds, and
-- another unlock gives ErrNoSuchLock.
pub unlock-lock_with_timeout :
    (env : Env) (l : LockNode) (name key : Text) (timeout : ℕ)
    → IsSole env l.node name key
    → check (locker_of l (get_hkey env name key) name) key ≡ false
    → (l1 : LockNode) × (l2 : LockNode) × (lock_with_timeout env l false name key timeout
        ≡ (l1, ok tt))
      × (unlock env l1 false name key ≡ (l2, ok tt))
      × (unlock env l2 false name key ≡ (l2, fails no_such_lock))
unfolding save_lock or_no_such_lock
unlock-lock_with_timeout env l name key timeout w new =
    let hkey = get_hkey env name key in
    let t = lock_now_lem (locker_of l hkey name) key new in
    let l1 = set_locker l hkey name t.after in
    let l2 = set_locker l1 hkey name t.free in
    (
      l1,
      l2,
      lock_sole env name key l w timeout t.after new t.taken,
      unlock_sole env name key l1 w (ok t.free) (
          ap (λ k. or_no_such_lock (Locker.unlock k key)) (locker_set l hkey name t.after)
          ∙ ap or_no_such_lock t.released),
      unlock_sole env name key l2 w (fails no_such_lock) (
          ap (λ k. or_no_such_lock (Locker.unlock k key)) (locker_set l1 hkey name t.free)
          ∙ ap or_no_such_lock ((unlock-no_such_lock t.free key).0 t.forgotten)),
    )
