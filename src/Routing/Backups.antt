-- ===== src/Routing/Backups.antt =====
-- The owners of a backup after a change of the cluster.
use mathlib.Core.List.{append_assoc}
use olricdb.Prelude.{
  ℕ, ◌≡◌, refl, sym, ap, ◌∙◌, ◌⊎◌, inl, inr, some, List, [], ◌∷◌, ◌++◌, length, ok, Bool-cases, In,
  In-append, All, subst,
}
use olricdb.Discovery.{Host, host_cmp}
use olricdb.Routing.{
  Partition, View, remove_host, add_owners, prune_dead, prune_empty, keep_last, distribute_backups,
}
use olricdb.Routing.Owners.{
  IsLive, host_cmp_iff, add_owner_lem, prune_dead-append, prune_dead_live, In-prune_dead,
  In-prune_empty, keep_last-append, Holds, has_data-Holds, prune_empty-In, prune_dead-In, append-In,
  only,
}

-- No host stands twice.
abbrev pub Once : List Host → Type 0
Once [] = Unit
Once (h ∷ hs) = (In h hs → ⊥) × Once hs

-- A host that does not stand in `ys` is removed from what is before it.
remove_host-append :
    (h : Host) (xs ys : List Host)
    → (In h ys → ⊥)
    → (zs : List Host) × (remove_host h (xs ++ ys) ≡ zs ++ ys)
      × ((a : Host) → In a xs → (a ≡ h) ⊎ In a zs)
      × ((a : Host) → In a zs → In a xs)
unfolding remove_host
remove_host-append h [] ys out = ([], absent ys out, (λ a i. absurd i), λ a i. absurd i)
  where
    absent : (ys : List Host) → (In h ys → ⊥) → remove_host h ys ≡ ys
    absent [] out = refl
    absent (y ∷ ys) out = elim (Bool-cases (host_cmp y h)) [
      | inl q ↦ absurd (out (inl (sym ((host_cmp_iff y h).0 q))))
      | inr q ↦ rw q (ap (λ l. y ∷ l) (absent ys (λ i. out (inr i))))
    ]
remove_host-append h (x ∷ xs) ys out = elim (Bool-cases (host_cmp x h)) [
  | inl q ↦ (
    xs,
    rw q refl,
    λ a i. elim i [ inl e ↦ inl (e ∙ (host_cmp_iff x h).0 q) | inr j ↦ inr j ],
    λ a i. inr i,
  )
  | inr q ↦
      let (zs, e, kept, within) = remove_host-append h xs ys out in
      (
        x ∷ zs,
        rw q (ap (λ l. x ∷ l) e),
        λ a i. elim i [
          | inl e ↦ inr (inl e)
          | inr j ↦ elim (kept a j) [ inl e ↦ inl e | inr k ↦ inr (inr k) ]
        ],
        λ a i. elim i [ inl e ↦ inl e | inr j ↦ inr (within a j) ],
      )
]

append_nil : (l : List Host) → l ++ [] ≡ l
append_nil [] = refl
append_nil (x ∷ l) = ap (λ k. x ∷ k) (append_nil l)

-- The hosts that are added end up last, in their order, and no other host is lost.
add_owners_lem :
    (xs done bs : List Host)
    → Once bs
    → ((b : Host) → In b bs → In b done → ⊥)
    → (zs : List Host) × (add_owners (xs ++ done) bs ≡ zs ++ (done ++ bs))
      × ((a : Host) → In a xs → In a zs ⊎ In a bs)
      × ((a : Host) → In a zs → In a xs)
unfolding add_owners
add_owners_lem xs done [] once out =
    (xs, ap (λ l. xs ++ l) (sym (append_nil done)), (λ a i. inl i), λ a i. i)
add_owners_lem xs done (b ∷ bs) once out =
    let (ys, e, kept, within) = remove_host-append b xs done (out b (inl refl)) in
    let (zs, f, kept', within') = add_owners_lem ys (done ++ (b ∷ [])) bs once.1 (λ c i j.
      elim (append-In c done (b ∷ []) j) [
        | inl k ↦ out c (inr i) k
        | inr k ↦ once.0 (subst (λ x. In x bs) (only k) i)
      ]) in
    (
      zs,
      ap (λ l. add_owners l bs)
            (add_owner_lem (xs ++ done) b
              ∙ ap (λ l. l ++ (b ∷ [])) e
              ∙ append_assoc ys done (b ∷ []))
          ∙ f
          ∙ ap (λ l. zs ++ l) (append_assoc done (b ∷ []) bs),
      λ a i. elim (kept a i) [
        | inl same ↦ inr (inl same)
        | inr j ↦ elim (kept' a j) [ inl k ↦ inl k | inr k ↦ inr (inr k) ]
      ],
      λ a i. within a (within' a i),
    )

-- The backups that the distribution leaves, `closest` last.
pub record IsBackedUp (v : View) (closest : List Host) (part part' : Partition) : Type 0 where
  pub last : (front : List Host) × (part'.owners ≡ front ++ closest)
  pub kept :
      (h : Host) → In h part.owners → IsLive v.members h → Holds v part.count h → In h part'.owners
  pub no_other :
      (h : Host)
      → In h part'.owners
      → In h closest ⊎ (In h part.owners × IsLive v.members h × Holds v part.count h)
  pub same : part'.count ≡ part.count

backups_of :
    (v : View) (closest os : List Host) (count : ℕ)
    → Once closest
    → All (IsLive v.members) closest
    → (part' : Partition) × (distribute_backups v
          (length closest)
          (some closest)
          (record { owners = os; count = count })
        ≡ ok (part', part'.owners))
      × IsBackedUp v closest (record { owners = os; count = count }) part'
unfolding distribute_backups
backups_of v closest [] count once live = (
  record { owners = closest; count = count },
  refl,
  record { last = ([], refl); kept = λ h i l f. absurd i; no_other = λ h i. inl i; same = refl },
)
backups_of v closest (o ∷ os) count once live =
    let (zs, e, kept, within) = add_owners_lem (o ∷ os) [] closest once (λ b i j. j) in
    let front = prune_empty v count (prune_dead v.members zs) in
    let added : add_owners (o ∷ os) closest ≡ zs ++ closest =
      ap (λ l. add_owners l closest) (sym (append_nil (o ∷ os))) ∙ e in
    let pruned : prune_dead v.members (add_owners (o ∷ os) closest)
        ≡ prune_dead v.members zs ++ closest =
      ap (prune_dead v.members) added
      ∙ prune_dead-append v.members zs closest
      ∙ ap (λ l. prune_dead v.members zs ++ l) (prune_dead_live v.members closest live) in
    let kept_eq : keep_last v count (length closest)
          (prune_dead v.members (add_owners (o ∷ os) closest))
        ≡ ok (front ++ closest) =
      ap (keep_last v count (length closest)) pruned
      ∙ keep_last-append v count (prune_dead v.members zs) closest in
    (
      record { owners = front ++ closest; count = count },
      rw kept_eq refl,
      record {
        last = (front, refl);
        kept = λ h i l f. In-append h front closest (elim (kept h i) [
          | inl j ↦ inl (
              In-prune_empty v count h (prune_dead v.members zs) (has_data-Holds v count h f)
                (In-prune_dead v.members h zs l j))
          | inr j ↦ inr j
        ]);
        no_other = λ h i. elim (append-In h front closest i) [
          | inr j ↦ inl j
          | inl j ↦
              let (k, full) = prune_empty-In v count h (prune_dead v.members zs) j in
              let (x, live') = prune_dead-In v.members h zs k in inr (within h x, live', full)
        ];
        same = refl;
      },
    )

-- Where the ring gives as many distinct backups as are wanted and the member list has them all, the
-- distribution of a partition's backups does not panic, leaves these backups as the last owners in
-- the ring's order, and keeps the partition's count. An owner that the member list has is kept if
-- it still has DMaps, by the node's own count for itself and by their answers for the others, and
-- apart from the ring's backups no other is kept and none is new.
pub distribute_backups_lem :
    (v : View) (closest : List Host) (part : Partition)
    → Once closest
    → All (IsLive v.members) closest
    → (part' : Partition) × (distribute_backups v (length closest) (some closest) part
        ≡ ok (part', part'.owners))
      × IsBackedUp v closest part part'
distribute_backups_lem v closest part once live =
    backups_of v closest part.owners part.count once live
