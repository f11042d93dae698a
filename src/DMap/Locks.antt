-- ===== src/DMap/Locks.antt =====
-- dmap_lock.go: locks on keys, at the owner of the key or at a previous one that still has them.
pub mod Sole
use native.Mathlib.Omega.{arith}
use olricdb.Prelude.{
  ℕ, ◌%◌, ◌≡◌, refl, sym, ap, ◌∙◌, Bool, true, false, Option, none, some, List, [], ◌∷◌, reverse,
  ◌==◌, if◌then◌else◌, ◌&&◌, nat_eq, Text, text_eq, text_beq, Outcome, ok, fails, panics, stuck,
}
use olricdb.Prelude.Dict.{Dict, lookup, insert}
use olricdb.Protocol.Code.{
  Message, Extra, zero_message, error, success, status_internal_server_error, status_no_such_lock,
}
use olricdb.Protocol.Code
use olricdb.Protocol.Code.OpCode
use olricdb.Locker.{Locker, Waiter, lock_enter, lock_acquire, lock_leave, check}
use olricdb.Locker
use olricdb.Discovery.{Host, host_cmp}
use olricdb.DMap.{
  DMap, Node, Env, Error, no_such_lock, Result, and_then, primary_copy, request_to, get_hkey,
  locate, get_shard, get_dmap,
}
use olricdb.DMap.Put.{key_request}

-- The node, and the locker of each partition's DMaps.
pub record LockNode : Type 0 where
  pub node : Node
  pub lockers : ℕ → Text → Locker

abbrev pub LockResult : Type 0 → Type 0
LockResult A = LockNode × Outcome Error A

-- A call that leaves the lockers alone.
unfoldable pub on_node :
    {A B : Type 0} → LockNode → Result A → (LockNode → A → LockResult B) → LockResult B
on_node l (n, ok a) f = f (record l { node = n }) a
on_node l (n, fails e) f = (record l { node = n }, fails e)
on_node l (n, panics) f = (record l { node = n }, panics)
on_node l (n, stuck) f = (record l { node = n }, stuck)

abbrev pub part_of : LockNode → ℕ → ℕ
part_of l hkey = hkey % l.node.config.partition_count

abbrev pub locker_of : LockNode → ℕ → Text → Locker
locker_of l hkey name = l.lockers (part_of l hkey) name

abbrev pub set_locker : LockNode → ℕ → Text → Locker → LockNode
set_locker l hkey name k = record l {
  lockers = λ p x. if (p == part_of l hkey) && text_beq x name then k else l.lockers p x;
}

-- The new waiter, at the head of `waiting`, takes the mutex and leaves; where the mutex is taken the
-- call waits.
unfoldable pub lock_first : Locker → List Waiter → Outcome Error Locker
lock_first k [] = panics
lock_first k (w ∷ behind) =
    if (k.ctrs w.ctr).locked
    then stuck
    else ok (lock_leave (lock_acquire k [] w behind) [] (record w { acquired = true }) behind)

-- `lock`, where no other goroutine takes a step.
unfoldable pub lock_now : Locker → Text → Outcome Error Locker
unfolding lock_first lock_enter
lock_now k key = lock_first (lock_enter k key) (lock_enter k key).waiting

-- After the wait of `waitLockForTimeout`: `notified` says that the key was unlocked meanwhile.
unfoldable pub lock_expired : Locker → Text → Bool → Outcome Error Locker
lock_expired k key true = ok k
lock_expired k key false = elim (Locker.unlock k key) [
  | ok k' ↦ ok k'
  | fails _ ↦ ok k
  | panics ↦ panics
  | stuck ↦ stuck
]

-- The answer of a previous owner ends the search, unless it is ErrNoSuchLock.
unfoldable pub find_next : Result Message → Host → (Node → Result Host) → Result Host
find_next (n, ok _) owner next = (n, ok owner)
find_next (n, fails no_such_lock) owner next = next n
find_next (n, fails e) owner next = (n, fails e)
find_next (n, panics) owner next = (n, panics)
find_next (n, stuck) owner next = (n, stuck)

-- The owners from the last.
unfoldable pub find_among : Env → Text → Text → List Host → Node → Result Host
unfolding find_next request_to
find_among env name key [] n = (n, ok n.this)
find_among env name key (o ∷ os) n =
    if host_cmp n.this o
    then find_among env name key os n
    else find_next (request_to env n o.name OpCode.find_lock (key_request name key)) o
        (find_among env name key os)

-- "partition owners list cannot be empty"
unfoldable pub find_lock_key : Env → Node → ℕ → Text → Text → Result Host
unfolding find_among get_shard
find_lock_key env n hkey name key = and_then (get_shard primary_copy n hkey) λ n1 s.
    elim s.part.owners [
      | [] ↦ (n1, panics)
      | o ∷ os ↦ find_among env name key (reverse (o ∷ os)) n1
    ]

abbrev pub lock_request : Text → Text → ℕ → Message
lock_request name key timeout = record (key_request name key) {
  extra = some (Extra.lock_with_timeout timeout);
}

unfoldable pub save_lock : LockNode → ℕ → Text → Outcome Error Locker → LockResult Unit
save_lock l hkey name (ok k) = (set_locker l hkey name k, ok tt)
save_lock l hkey name (fails e) = (l, fails e)
save_lock l hkey name panics = (l, panics)
save_lock l hkey name stuck = (l, stuck)

-- The lock is taken here, or at the owner that was found.
unfoldable pub lock_at : Env → LockNode → ℕ → Text → Text → ℕ → Host → LockResult Unit
unfolding save_lock lock_now on_node request_to
lock_at env l hkey name key timeout owner =
    if host_cmp l.node.this owner
    then save_lock l hkey name (lock_now (locker_of l hkey name) key)
    else on_node l
        (request_to env l.node owner.name OpCode.lock_prev (lock_request name key timeout))
        λ l1 _. (l1, ok tt)

unfoldable pub lock_key : Env → LockNode → ℕ → Text → Text → ℕ → LockResult Unit
unfolding on_node lock_at find_lock_key save_lock lock_now
lock_key env l hkey name key timeout =
    on_node l (get_dmap env primary_copy l.node hkey name) λ l1 _.
      if check (locker_of l1 hkey name) key
      then save_lock l1 hkey name (lock_now (locker_of l1 hkey name) key)
      else on_node l1 (find_lock_key env l1.node hkey name key)
          λ l2 owner. lock_at env l2 hkey name key timeout owner

unfoldable pub lock_with_timeout : Env → LockNode → Bool → Text → Text → ℕ → LockResult Unit
unfolding on_node lock_key request_to
lock_with_timeout env l late name key timeout =
    let hkey = get_hkey env name key in
    on_node l (locate l.node late hkey) λ l1 member.
      if host_cmp member l1.node.this
      then lock_key env l1 hkey name key timeout
      else on_node l1
          (request_to env l1.node member.name OpCode.ex_lock_with_timeout
            (lock_request name key timeout))
          λ l2 _. (l2, ok tt)

-- The locker's own error, as an error of the node.
unfoldable pub or_no_such_lock : Outcome Locker.Error Locker → Outcome Error Locker
or_no_such_lock (ok k) = ok k
or_no_such_lock (fails _) = fails no_such_lock
or_no_such_lock panics = panics
or_no_such_lock stuck = stuck

unfoldable pub unlock_here : Env → LockNode → ℕ → Text → Text → LockResult Unit
unfolding on_node save_lock or_no_such_lock
unlock_here env l hkey name key =
    on_node l (get_dmap env primary_copy l.node hkey name)
      λ l1 _. save_lock l1 hkey name (or_no_such_lock (Locker.unlock (locker_of l1 hkey name) key))

unfoldable pub unlock_key : Env → LockNode → ℕ → Text → Text → LockResult Unit
unfolding on_node unlock_here find_lock_key request_to
unlock_key env l hkey name key = on_node l (find_lock_key env l.node hkey name key) λ l1 owner.
    if host_cmp l1.node.this owner
    then unlock_here env l1 hkey name key
    else on_node l1 (request_to env l1.node owner.name OpCode.unlock_prev (key_request name key))
        λ l2 _. (l2, ok tt)

unfoldable pub unlock : Env → LockNode → Bool → Text → Text → LockResult Unit
unfolding on_node unlock_key request_to
unlock env l late name key =
    let hkey = get_hkey env name key in
    on_node l (locate l.node late hkey) λ l1 member.
      if host_cmp member l1.node.this
      then unlock_key env l1 hkey name key
      else on_node l1 (request_to env l1.node member.name OpCode.ex_unlock (key_request name key))
          λ l2 _. (l2, ok tt)

-- The response of the operations below: ErrNoSuchLock has a status of its own where `known` says so.
unfoldable pub lock_response :
    (Error → List ℕ) → Bool → Message → LockResult Unit → LockResult Message
lock_response text known req (l, ok _) = (l, ok (success req))
lock_response text true req (l, fails no_such_lock) =
    (l, ok (error req status_no_such_lock Code.nothing))
lock_response text known req (l, fails e) =
    (l, ok (error req status_internal_server_error (Code.text (text e))))
lock_response text known req (l, panics) = (l, panics)
lock_response text known req (l, stuck) = (l, stuck)

-- The type assertion on the extra.
abbrev pub timeout_of : Option Extra → Option ℕ
timeout_of (some (Extra.lock_with_timeout ttl)) = some ttl
timeout_of _ = none

unfoldable pub ex_lock_with_timeout_operation :
    Env → (Error → List ℕ) → LockNode → Bool → Message → LockResult Message
unfolding lock_with_timeout lock_response
ex_lock_with_timeout_operation env text l late req = elim (timeout_of req.extra) [
  | none ↦ (l, panics)
  | some ttl ↦ lock_response text false req (lock_with_timeout env l late req.dmap req.key ttl)
]

unfoldable pub ex_unlock_operation :
    Env → (Error → List ℕ) → LockNode → Bool → Message → LockResult Message
unfolding unlock lock_response
ex_unlock_operation env text l late req =
    lock_response text true req (unlock env l late req.dmap req.key)

unfoldable pub found : LockNode → ℕ → Message → LockResult Unit
found l hkey req =
    if check (locker_of l hkey req.dmap) req.key then (l, ok tt) else (l, fails no_such_lock)

-- An error of `getDMap` is an internal one.
unfoldable pub find_lock_operation :
    Env → (Error → List ℕ) → LockNode → Message → LockResult Message
unfolding on_node found lock_response
find_lock_operation env text l req =
    let hkey = get_hkey env req.dmap req.key in
    lock_response text true req
      (on_node l (get_dmap env primary_copy l.node hkey req.dmap) λ l1 _. found l1 hkey req)

unfoldable pub unlock_prev_operation :
    Env → (Error → List ℕ) → LockNode → Message → LockResult Message
unfolding unlock_here lock_response
unlock_prev_operation env text l req =
    lock_response text true req (unlock_here env l (get_hkey env req.dmap req.key) req.dmap req.key)

-- The lock is taken before the extra is looked at.
unfoldable pub after_lock : (Error → List ℕ) → Message → LockResult Unit → LockResult Message
unfolding lock_response
after_lock text req (l, ok u) = elim (timeout_of req.extra) [
  | none ↦ (l, panics)
  | some _ ↦ (l, ok (success req))
]
after_lock text req r = lock_response text false req r

unfoldable pub lock_prev_operation :
    Env → (Error → List ℕ) → LockNode → Message → LockResult Message
unfolding on_node save_lock lock_now after_lock
lock_prev_operation env text l req =
    let hkey = get_hkey env req.dmap req.key in
    after_lock text req (
      on_node l (get_dmap env primary_copy l.node hkey req.dmap)
        λ l1 _. save_lock l1 hkey req.dmap (lock_now (locker_of l1 hkey req.dmap) req.key))
