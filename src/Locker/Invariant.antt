-- ===== src/Locker/Invariant.antt =====
-- In every reachable state a lock object counts the calls of `lock` that are on their way through
-- it, and the map keeps the object as long as there are any.
use native.Mathlib.Omega.{arith}
use olricdb.Prelude.{
  ℕ, ◌+◌, ◌<◌, ◌≡◌, refl, sym, ap, ◌∙◌, inl, inr, subst, true, false, none, some, List, [], ◌∷◌,
  ◌++◌, Text, text_eq, ◌==◌, ==_iff, text_beq_iff, if◌then◌else◌, Outcome, ok, fails, panics, All,
  Bool-cases, Option-cases,
}
use olricdb.Prelude.Dict.{Dict, lookup, insert, erase, lookup-insert, lookup-erase}
use olricdb.Locker.{
  Waiter, Locker, Error, no_such_lock, update, new_locker, join_ctr, add_ctr, lock_enter,
  lock_acquire, lock_leave, release, unlock, Step, enters, acquires, leaves, unlocks, Reach, start,
  next,
}

-- The calls of `lock` on the object `p`.
abbrev pub count : ℕ → List Waiter → ℕ
count p [] = 0
count p (w ∷ ws) = (if w.ctr == p then 1 else 0) + count p ws

pub record IsSound (l : Locker) : Type 0 where
  pub counted : (p : ℕ) → (l.ctrs p).waiters ≡ count p l.waiting
  pub kept : All (λ w. lookup w.name l.locks ≡ some w.ctr) l.waiting
  pub fresh : (name : Text) (p : ℕ) → lookup name l.locks ≡ some p → p < l.next_ctr
  pub apart : (a b : Text) (p : ℕ) → lookup a l.locks ≡ some p → lookup b l.locks ≡ some p → a ≡ b

count-append : (p : ℕ) (xs ys : List Waiter) → count p (xs ++ ys) ≡ count p xs + count p ys
count-append p [] ys = omega arith
count-append p (x ∷ xs) ys = omega (arith, count-append p xs ys)

All-append_iff :
    {A : Type 0} (P : A → Type 0) (xs ys : List A)
    → (All P (xs ++ ys) → All P xs × All P ys) × (All P xs → All P ys → All P (xs ++ ys))
All-append_iff P [] ys = (λ h. (tt, h), λ a b. b)
All-append_iff P (x ∷ xs) ys = (
  λ h. let r = (All-append_iff P xs ys).0 h.1 in ((h.0, r.0), r.1),
  λ a b. (a.0, (All-append_iff P xs ys).1 a.1 b),
)

new_locker-IsSound : IsSound new_locker
new_locker-IsSound = record {
  counted = λ p. refl;
  kept = tt;
  fresh = λ name p h. cc;
  apart = λ a b p h g. cc;
}

join_ctr-IsSound :
    (l : Locker) (name : Text) (p : ℕ)
    → lookup name l.locks ≡ some p
    → IsSound l
    → IsSound (join_ctr l name p)
unfolding join_ctr update
join_ctr-IsSound l name p q s = record {
  counted = λ i. ground (arith, s.counted i, ==_iff i p, ==_iff p i);
  kept = (q, s.kept);
  fresh = s.fresh;
  apart = s.apart;
}

-- No waiter is on an object that is yet to be made.
count-fresh :
    (n : ℕ) (locks : Dict Text ℕ) (ws : List Waiter)
    → ((name : Text) (p : ℕ) → lookup name locks ≡ some p → p < n)
    → All (λ w. lookup w.name locks ≡ some w.ctr) ws
    → count n ws ≡ 0
count-fresh n locks [] f h = refl
count-fresh n locks (w ∷ ws) f h = ground (arith, f w.name w.ctr h.0, count-fresh n locks ws f h.1)

kept-insert :
    (name : Text) (n : ℕ) (locks : Dict Text ℕ) (ws : List Waiter)
    → lookup name locks ≡ none
    → All (λ w. lookup w.name locks ≡ some w.ctr) ws
    → All (λ w. lookup w.name (insert name n locks) ≡ some w.ctr) ws
kept-insert name n locks [] q h = tt
kept-insert name n locks (w ∷ ws) q h = (
  ground (arith, lookup-insert name w.name n locks, text_beq_iff name w.name, h.0, q),
  kept-insert name n locks ws q h.1,
)

add_ctr-IsSound :
    (l : Locker) (name : Text) → lookup name l.locks ≡ none → IsSound l → IsSound (add_ctr l name)
unfolding add_ctr update
add_ctr-IsSound l name q s = record {
  counted =
      λ i. ground (arith, s.counted i, count-fresh l.next_ctr l.locks l.waiting s.fresh s.kept);
  kept = kept-insert name l.next_ctr l.locks l.waiting q s.kept;
  fresh = λ a p h. ground (arith, lookup-insert name a l.next_ctr l.locks, s.fresh a p);
  apart = λ a b p h g. ground (
    arith,
    lookup-insert name a l.next_ctr l.locks,
    lookup-insert name b l.next_ctr l.locks,
    text_beq_iff name a,
    text_beq_iff name b,
    s.fresh a p,
    s.fresh b p,
    s.apart a b p,
  );
}

lock_enter-IsSound : (l : Locker) (name : Text) → IsSound l → IsSound (lock_enter l name)
unfolding lock_enter
lock_enter-IsSound l name s = elim (Option-cases (lookup name l.locks)) [
  | inr (p, q) ↦ rw (q, lock_enter) (join_ctr-IsSound l name p q s)
  | inl q ↦
      rw (q, lock_enter)
        (join_ctr-IsSound (add_ctr l name) name l.next_ctr
          (unfold add_ctr in
            (lookup-insert name name l.next_ctr l.locks ∙ ground (arith, text_beq_iff name name)))
          (add_ctr-IsSound l name q s))
]

lock_acquire-IsSound :
    (l : Locker) (before : List Waiter) (w : Waiter) (behind : List Waiter)
    → l.waiting ≡ before ++ (w ∷ behind)
    → IsSound l
    → IsSound (lock_acquire l before w behind)
unfolding lock_acquire update
lock_acquire-IsSound l before w behind q s = record {
  counted = λ i. ground (
    arith,
    s.counted i,
    ap (count i) q,
    count-append i before (w ∷ behind),
    count-append i before (record w { acquired = true } ∷ behind),
    ==_iff i w.ctr,
  );
  kept =
      let r = (All-append_iff P before (w ∷ behind)).0 (subst (All P) q s.kept) in
      (All-append_iff P before (record w { acquired = true } ∷ behind)).1 r.0 r.1;
  fresh = s.fresh;
  apart = s.apart;
}
  where
    P : Waiter → Type 0
    P v = lookup v.name l.locks ≡ some v.ctr

lock_leave-IsSound :
    (l : Locker) (before : List Waiter) (w : Waiter) (behind : List Waiter)
    → l.waiting ≡ before ++ (w ∷ behind)
    → IsSound l
    → IsSound (lock_leave l before w behind)
unfolding lock_leave update
lock_leave-IsSound l before w behind q s = record {
  counted = λ i. ground (
    arith,
    s.counted i,
    ap (count i) q,
    count-append i before (w ∷ behind),
    count-append i before behind,
    ==_iff i w.ctr,
    ==_iff w.ctr i,
  );
  kept =
      let r = (All-append_iff P before (w ∷ behind)).0 (subst (All P) q s.kept) in
      (All-append_iff P before behind).1 r.0 r.1.1;
  fresh = s.fresh;
  apart = s.apart;
}
  where
    P : Waiter → Type 0
    P v = lookup v.name l.locks ≡ some v.ctr

-- Erasing the name of an object that nobody waits on keeps every waiter's entry.
kept-erase :
    (name : Text) (p : ℕ) (locks : Dict Text ℕ) (ws : List Waiter)
    → lookup name locks ≡ some p
    → count p ws ≡ 0
    → All (λ w. lookup w.name locks ≡ some w.ctr) ws
    → All (λ w. lookup w.name (erase name locks) ≡ some w.ctr) ws
kept-erase name p locks [] q z h = tt
kept-erase name p locks (w ∷ ws) q z h = (this, kept-erase name p locks ws q (ground arith) h.1)
  where
    same : name ≡ w.name → w.ctr ≡ p
    same e = cc (h.0, ap (λ n. lookup n locks) e, q)

    this : lookup w.name (erase name locks) ≡ some w.ctr
    this =
        lookup-erase name w.name locks
        ∙ ground (arith, text_beq_iff name w.name, same, h.0, z, ==_iff w.ctr p)

release-IsSound : (l l' : Locker) (p : ℕ) → release l p ≡ ok l' → IsSound l → IsSound l'
unfolding release update
release-IsSound l l' p e s = elim (Bool-cases (l.ctrs p).locked) [
  | inr free ↦ absurd (clash (rw free at e))
  | inl held ↦ subst IsSound (ok_inj (rw held at e)) released
]
  where
    clash : ◌≡◌ {A = Outcome Error Locker} panics (ok l') → ⊥
    clash q = cc

    after : Locker
    after = record l {
      ctrs = update l.ctrs p (record (l.ctrs p) { locked = false });
      closed = update l.closed (l.ctrs p).done true;
    }

    ok_inj : {a b : Locker} → ◌≡◌ {A = Outcome Error Locker} (ok a) (ok b) → a ≡ b
    ok_inj q = cc

    released : IsSound after
    released = record {
      counted = λ i. ground (arith, s.counted i, s.counted p, ==_iff i p);
      kept = s.kept;
      fresh = s.fresh;
      apart = s.apart;
    }

erased-IsSound :
    (l : Locker) (name : Text) (p : ℕ)
    → lookup name l.locks ≡ some p
    → (l.ctrs p).waiters ≡ 0
    → IsSound l
    → IsSound (record l { locks = erase name l.locks })
erased-IsSound l name p q z s = record {
  counted = s.counted;
  kept = kept-erase name p l.locks l.waiting q (sym (s.counted p) ∙ z) s.kept;
  fresh = λ a i h. ground (arith, lookup-erase name a l.locks, s.fresh a i);
  apart = λ a b i h g.
      ground (arith, lookup-erase name a l.locks, lookup-erase name b l.locks, s.apart a b i);
}

unlock-IsSound : (l l' : Locker) (name : Text) → unlock l name ≡ ok l' → IsSound l → IsSound l'
unfolding unlock
unlock-IsSound l l' name e s = elim (Option-cases (lookup name l.locks)) [
  | inl q ↦ absurd (clash (sym (rw (q, unlock) refl) ∙ e))
  | inr (p, q) ↦ elim (Bool-cases ((l.ctrs p).waiters == 0)) [
    | inl idle ↦
        release-IsSound (record l { locks = erase name l.locks }) l' p
          (sym (rw (q, unlock) (rw idle refl)) ∙ e)
          (erased-IsSound l name p q ((==_iff (l.ctrs p).waiters 0).0 idle) s)
    | inr busy ↦ release-IsSound l l' p (sym (rw (q, unlock) (rw busy refl)) ∙ e) s
  ]
]
  where
    clash : ◌≡◌ {A = Outcome Error Locker} (fails no_such_lock) (ok l') → ⊥
    clash q = cc

Step-IsSound : {l l' : Locker} → Step l l' → IsSound l → IsSound l'
Step-IsSound {l} (enters name) s = lock_enter-IsSound l name s
Step-IsSound {l} (acquires before w behind q _ _) s = lock_acquire-IsSound l before w behind q s
Step-IsSound {l} (leaves before w behind q _) s = lock_leave-IsSound l before w behind q s
Step-IsSound {l} {l'} (unlocks name e) s = unlock-IsSound l l' name e s

Reach-IsSound : {l : Locker} → Reach l → IsSound l
Reach-IsSound start = new_locker-IsSound
Reach-IsSound (next r st) = Step-IsSound st (Reach-IsSound r)

-- In every state of the locker that the steps of its operations reach, each call of `lock` that has
-- not returned finds in the map, under its name, the lock object that it waits for, and each lock
-- object's `waiters` is the number of these calls.
pub waiting_kept :
    {l : Locker}
    → Reach l
    → All (λ w. lookup w.name l.locks ≡ some w.ctr) l.waiting
      × ((p : ℕ) → (l.ctrs p).waiters ≡ count p l.waiting)
waiting_kept r = let s = Reach-IsSound r in (s.kept, s.counted)
