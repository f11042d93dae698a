-- ===== src/Routing/Owners.antt =====
-- The owners of a primary copy after a change of the cluster.
use native.Mathlib.Omega.{arith}
use olricdb.Prelude.{
  ℕ, ◌-◌, ◌==◌, ==_iff, ◌≢◌, ◌≡◌, refl, sym, ap, subst, ◌∙◌, ◌⊎◌, inl, inr, true, false, Option,
  none, some, List, [], ◌∷◌, ◌++◌, length, length-append, take-append, drop-append, ltb,
  text_beq_iff, ok, panics, Bool-cases, Option-cases, In, In-append, All,
}
use olricdb.Discovery.{Host, host_cmp, find_named}
use olricdb.Routing.{
  Partition, View, remove_host, has_host, add_owner, prune_dead, has_data, prune_empty, keep_last,
  distribute_primary_copies, last_owner,
}

-- `findMember` finds the host itself.
abbrev pub IsLive : List Host → Host → Type 0
IsLive members h = find_named h.name members ≡ some h

pub host_cmp_iff : (a b : Host) → (host_cmp a b ≡ true → a ≡ b) × (a ≡ b → host_cmp a b ≡ true)
unfolding host_cmp
host_cmp_iff a b = (same, λ e. ground (arith, text_beq_iff a.name b.name))
  where
    same : host_cmp a b ≡ true → a ≡ b
    same q =
        let en : a.name ≡ b.name = ground (arith, text_beq_iff a.name b.name) in
        let ed : a.birthdate ≡ b.birthdate = ground arith in
        λ i. record { name = en i; birthdate = ed i }

remove_host_absent : (h : Host) (os : List Host) → has_host h os ≡ false → remove_host h os ≡ os
unfolding has_host remove_host
remove_host_absent h [] q = refl
remove_host_absent h (o ∷ os) q = elim (Bool-cases (host_cmp o h)) [
  | inl b ↦ absurd (ground arith)
  | inr b ↦ rw b (ap (λ l. o ∷ l) (remove_host_absent h os (rw b at q)))
]

pub add_owner_lem : (os : List Host) (h : Host) → add_owner os h ≡ remove_host h os ++ (h ∷ [])
unfolding add_owner
add_owner_lem os h = elim (Bool-cases (has_host h os)) [
  | inl q ↦ rw q refl
  | inr q ↦ rw q (ap (λ l. l ++ (h ∷ [])) (sym (remove_host_absent h os q)))
]

pub In-remove_host : (a h : Host) (os : List Host) → In a os → (a ≡ h) ⊎ In a (remove_host h os)
unfolding remove_host
In-remove_host a h (o ∷ os) i = elim (Bool-cases (host_cmp o h)) [
  | inl q ↦ elim i [ inl e ↦ inl (e ∙ (host_cmp_iff o h).0 q) | inr j ↦ inr (rw q j) ]
  | inr q ↦ elim i [
    | inl e ↦ inr (rw q (inl e))
    | inr j ↦ elim (In-remove_host a h os j) [ inl e ↦ inl e | inr k ↦ inr (rw q (inr k)) ]
  ]
]
In-remove_host a h [] i = absurd i

-- A host stays if it is live, and is dropped if not.
prune_dead-cons :
    (members : List Host) (o : Host) (os : List Host)
    → (IsLive members o × (prune_dead members (o ∷ os) ≡ o ∷ prune_dead members os))
      ⊎ ((IsLive members o → ⊥) × (prune_dead members (o ∷ os) ≡ prune_dead members os))
unfolding prune_dead
prune_dead-cons members o os = elim (Option-cases (find_named o.name members)) [
  | inl q ↦ inr (λ live. clash (sym q ∙ live), rw (q, prune_dead) refl)
  | inr (c, q) ↦ elim (Bool-cases (host_cmp o c)) [
    | inl b ↦
        let e = (host_cmp_iff o c).0 b in
        inl (
          q ∙ ap some (sym e),
          rw (q, prune_dead) (rw b (ap (λ x. x ∷ prune_dead members os) (sym e))),
        )
    | inr b ↦ inr (
      λ live. bool_clash (sym b ∙ (host_cmp_iff o c).1 (some_inj (sym live ∙ q))),
      rw (q, prune_dead) (rw b refl),
    )
  ]
]
  where
    clash : {h : Host} → ◌≡◌ {A = Option Host} none (some h) → ⊥
    clash e = cc

    bool_clash : false ≡ true → ⊥
    bool_clash e = cc

    some_inj : {a b : Host} → some a ≡ some b → a ≡ b
    some_inj e = cc

pub prune_dead-append :
    (members xs ys : List Host)
    → prune_dead members (xs ++ ys) ≡ prune_dead members xs ++ prune_dead members ys
unfolding prune_dead
prune_dead-append members [] ys = refl
prune_dead-append members (x ∷ xs) ys = elim (prune_dead-cons members x xs) [
  | inl (live, q) ↦ elim (prune_dead-cons members x (xs ++ ys)) [
    | inl (_, r) ↦
        r
        ∙ ap (λ l. x ∷ l) (prune_dead-append members xs ys)
        ∙ ap (λ l. l ++ prune_dead members ys) (sym q)
    | inr (dead, r) ↦ absurd (dead live)
  ]
  | inr (dead, q) ↦ elim (prune_dead-cons members x (xs ++ ys)) [
    | inl (live, r) ↦ absurd (dead live)
    | inr (_, r) ↦
        r ∙ prune_dead-append members xs ys ∙ ap (λ l. l ++ prune_dead members ys) (sym q)
  ]
]

-- Live hosts are not pruned.
pub prune_dead_live :
    (members hs : List Host) → All (IsLive members) hs → prune_dead members hs ≡ hs
unfolding prune_dead
prune_dead_live members [] live = refl
prune_dead_live members (h ∷ hs) live = elim (prune_dead-cons members h hs) [
  | inl (_, q) ↦ q ∙ ap (λ l. h ∷ l) (prune_dead_live members hs live.1)
  | inr (dead, _) ↦ absurd (dead live.0)
]

-- Dead ones all are.
pub prune_dead-none :
    (members hs : List Host)
    → All (λ h. find_named h.name members ≡ none) hs
    → prune_dead members hs ≡ []
unfolding prune_dead
prune_dead-none members [] dead = refl
prune_dead-none members (h ∷ hs) dead = rw (dead.0, prune_dead) (prune_dead-none members hs dead.1)

pub In-prune_dead :
    (members : List Host) (h : Host) (os : List Host)
    → IsLive members h
    → In h os
    → In h (prune_dead members os)
In-prune_dead members h [] live i = absurd i
In-prune_dead members h (o ∷ os) live i = elim (prune_dead-cons members o os) [
  | inl (_, q) ↦
      subst (In h) (sym q)
        (elim i [ inl e ↦ inl e | inr j ↦ inr (In-prune_dead members h os live j) ])
  | inr (dead, q) ↦ subst (In h) (sym q) (elim i [
    | inl e ↦ absurd (dead (subst (IsLive members) e live))
    | inr j ↦ In-prune_dead members h os live j
  ])
]

pub In-prune_empty :
    (v : View) (count : ℕ) (h : Host) (os : List Host)
    → has_data v count h ≡ true
    → In h os
    → In h (prune_empty v count os)
unfolding prune_empty
In-prune_empty v count h [] full i = absurd i
In-prune_empty v count h (o ∷ os) full i = elim (Bool-cases (has_data v count o)) [
  | inl q ↦ rw q (elim i [ inl e ↦ inl e | inr j ↦ inr (In-prune_empty v count h os full j) ])
  | inr q ↦ rw q (elim i [
    | inl e ↦ absurd (clash (sym q ∙ ap (has_data v count) (sym e) ∙ full))
    | inr j ↦ In-prune_empty v count h os full j
  ])
]
  where
    clash : false ≡ true → ⊥
    clash e = cc

-- The last owners stay, whatever the answers.
pub keep_last-append :
    (v : View) (count : ℕ) (xs ys : List Host)
    → keep_last v count (length ys) (xs ++ ys) ≡ ok (prune_empty v count xs ++ ys)
unfolding keep_last
keep_last-append v count xs ys =
    let front : length (xs ++ ys) - length ys ≡ length xs = omega (arith, length-append xs ys) in
    let bound : ltb (length (xs ++ ys)) (length ys) ≡ false = ground (arith, length-append xs ys) in
    rw (bound, front, take-append xs ys, drop-append xs ys) refl

pub last_owner-append : (xs : List Host) (h : Host) → last_owner (xs ++ (h ∷ [])) ≡ ok h
unfolding last_owner
last_owner-append [] h = refl
last_owner-append (x ∷ []) h = refl
last_owner-append (x ∷ y ∷ xs) h = last_owner-append (y ∷ xs) h

-- What the distribution makes of a partition that has owners already.
distribute_primary_copies_eq :
    (v : View) (owner o : Host) (os : List Host) (count : ℕ)
    → IsLive v.members owner
    → distribute_primary_copies v owner (record { owners = o ∷ os; count = count })
      ≡ ok (prune_empty v count (prune_dead v.members (remove_host owner (o ∷ os))) ++ (owner ∷ []))
unfolding distribute_primary_copies
distribute_primary_copies_eq v owner o os count live =
    ap (keep_last v count 1) (
      ap (prune_dead v.members) (add_owner_lem (o ∷ os) owner)
      ∙ prune_dead-append v.members (remove_host owner (o ∷ os)) (owner ∷ [])
      ∙ ap (λ l. prune_dead v.members (remove_host owner (o ∷ os)) ++ l)
          (prune_dead_live v.members (owner ∷ []) (live, tt)))
    ∙ keep_last-append v count (prune_dead v.members (remove_host owner (o ∷ os))) (owner ∷ [])

-- The host still has DMaps of the partition: this node by its count, another by its answer.
abbrev pub Holds : View → ℕ → Host → Type 0
Holds v count h = ((v.this ≡ h) × (count ≢ 0)) ⊎ ((v.this ≢ h) × (v.is_empty h ≡ false))

pub has_data-Holds : (v : View) (count : ℕ) (h : Host) → Holds v count h → has_data v count h ≡ true
unfolding has_data
has_data-Holds v count h (inl (e, full)) =
    rw ((host_cmp_iff v.this h).1 e) (elim (Bool-cases (count == 0)) [
      | inl q ↦ absurd (full ((==_iff count 0).0 q))
      | inr q ↦ rw q refl
    ])
has_data-Holds v count h (inr (ne, full)) = elim (Bool-cases (host_cmp v.this h)) [
  | inl q ↦ absurd (ne ((host_cmp_iff v.this h).0 q))
  | inr q ↦ rw (q, full) refl
]

pub Holds-has_data : (v : View) (count : ℕ) (h : Host) → has_data v count h ≡ true → Holds v count h
unfolding has_data
Holds-has_data v count h full = elim (Bool-cases (host_cmp v.this h)) [
  | inl q ↦ inl (
    (host_cmp_iff v.this h).0 q,
    λ z. ground (arith, rw (q, has_data, (==_iff count 0).1 z) at full),
  )
  | inr q ↦ inr (
    λ e. ground (arith, q, (host_cmp_iff v.this h).1 e),
    ground (arith, rw (q, has_data) at full),
  )
]

pub prune_empty-In :
    (v : View) (count : ℕ) (h : Host) (os : List Host)
    → In h (prune_empty v count os)
    → In h os × Holds v count h
unfolding prune_empty
prune_empty-In v count h [] = λ i. absurd i
prune_empty-In v count h (o ∷ os) = elim (Bool-cases (has_data v count o)) [
  | inl q ↦ rw q (λ i. elim i [
    | inl e ↦ (inl e, subst (Holds v count) (sym e) (Holds-has_data v count o q))
    | inr j ↦ let (k, full) = prune_empty-In v count h os j in (inr k, full)
  ])
  | inr q ↦ rw q (λ i. let (k, full) = prune_empty-In v count h os i in (inr k, full))
]

pub prune_dead-In :
    (members : List Host) (h : Host) (os : List Host)
    → In h (prune_dead members os)
    → In h os × IsLive members h
unfolding prune_dead
prune_dead-In members h [] i = absurd i
prune_dead-In members h (o ∷ os) i = elim (prune_dead-cons members o os) [
  | inl (live, q) ↦ elim (subst (In h) q i) [
    | inl e ↦ (inl e, subst (IsLive members) (sym e) live)
    | inr j ↦ let (k, l) = prune_dead-In members h os j in (inr k, l)
  ]
  | inr (dead, q) ↦ let (k, l) = prune_dead-In members h os (subst (In h) q i) in (inr k, l)
]

pub remove_host-In : (a h : Host) (os : List Host) → In a (remove_host h os) → In a os
unfolding remove_host
remove_host-In a h [] = λ i. absurd i
remove_host-In a h (o ∷ os) = elim (Bool-cases (host_cmp o h)) [
  | inl q ↦ rw q (λ i. inr i)
  | inr q ↦ rw q (λ i. elim i [ inl e ↦ inl e | inr j ↦ inr (remove_host-In a h os j) ])
]

pub append-In : (a : Host) (xs ys : List Host) → In a (xs ++ ys) → In a xs ⊎ In a ys
append-In a [] ys i = inr i
append-In a (x ∷ xs) ys (inl e) = inl (inl e)
append-In a (x ∷ xs) ys (inr j) = elim (append-In a xs ys j) [ inl k ↦ inl (inr k) | inr k ↦ inr k ]

pub only : {a b : Host} → In a (b ∷ []) → a ≡ b
only (inl e) = e
only (inr j) = absurd j

-- The owners that the distribution leaves.
pub record IsDistributed (v : View) (owner : Host) (part : Partition) (owners : List Host)
    : Type 0 where
  pub last : last_owner owners ≡ ok owner
  pub kept : (h : Host) → In h part.owners → IsLive v.members h → Holds v part.count h → In h owners
  pub no_other :
      (h : Host)
      → In h owners
      → (h ≡ owner) ⊎ (In h part.owners × IsLive v.members h × Holds v part.count h)

distribute_owners :
    (v : View) (owner : Host) (os : List Host) (count : ℕ)
    → IsLive v.members owner
    → (owners : List Host) × (distribute_primary_copies v owner
          (record { owners = os; count = count })
        ≡ ok owners)
      × IsDistributed v owner (record { owners = os; count = count }) owners
unfolding distribute_primary_copies
distribute_owners v owner [] count live = (
  owner ∷ [],
  refl,
  record {
    last = last_owner-append [] owner;
    kept = λ h i l f. absurd i;
    no_other = λ h i. inl (only i);
  },
)
distribute_owners v owner (o ∷ os) count live =
    let rest = remove_host owner (o ∷ os) in
    let front = prune_empty v count (prune_dead v.members rest) in
    (
      front ++ (owner ∷ []),
      distribute_primary_copies_eq v owner o os count live,
      record {
        last = last_owner-append front owner;
        kept = λ h i l f. In-append h front (owner ∷ []) (elim (In-remove_host h owner (o ∷ os) i) [
          | inl e ↦ inr (inl e)
          | inr j ↦ inl (
              In-prune_empty v count h (prune_dead v.members rest) (has_data-Holds v count h f)
                (In-prune_dead v.members h rest l j))
        ]);
        no_other = λ h i. elim (append-In h front (owner ∷ []) i) [
          | inr j ↦ inl (only j)
          | inl j ↦
              let (k, full) = prune_empty-In v count h (prune_dead v.members rest) j in
              let (x, live') = prune_dead-In v.members h rest k in
              inr (remove_host-In h owner (o ∷ os) x, live', full)
        ];
      },
    )

-- Where the member list has the ring's owner itself, the distribution of a partition's primary
-- copies does not panic, and leaves the ring's owner as the last owner. An owner that the member
-- list has is kept if it still has DMaps, by the node's own count for itself and by their answers
-- for the others, and apart from the ring's owner no other is kept and none is new.
pub distribute_primary_copies_lem :
    (v : View) (owner : Host) (part : Partition)
    → IsLive v.members owner
    → (owners : List Host) × (distribute_primary_copies v owner part ≡ ok owners)
      × IsDistributed v owner part owners
distribute_primary_copies_lem v owner part live =
    distribute_owners v owner part.owners part.count live

-- Where the partition has owners already, and the member list has no host with the name of any of
-- them or of the ring's owner, the distribution of its primary copies panics.
pub distribute_primary_copies_dead :
    (v : View) (owner o : Host) (os : List Host) (count : ℕ)
    → All (λ h. find_named h.name v.members ≡ none) (add_owner (o ∷ os) owner)
    → distribute_primary_copies v owner (record { owners = o ∷ os; count = count }) ≡ panics
unfolding distribute_primary_copies keep_last
distribute_primary_copies_dead v owner o os count dead =
    ap (keep_last v count 1) (prune_dead-none v.members (add_owner (o ∷ os) owner) dead)
