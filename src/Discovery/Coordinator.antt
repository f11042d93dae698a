-- ===== src/Discovery/Coordinator.antt =====
-- Who is found among the members, and who coordinates.
use native.Mathlib.Omega.{arith}
use olricdb.Prelude.{
  ℕ, ◌≤◌, ◌≡◌, ◌≢◌, refl, sym, ap, ◌∙◌, ◌⊎◌, inl, inr, Option, none, some, List, [], ◌∷◌, map, leb,
  leb→le, Text, text_beq, text_beq_iff, Outcome, ok, fails, Bool-cases, In, All, All-In,
}
use olricdb.Discovery.{
  Host, Node, Error, host_not_found, to_host, insert_by_birthdate, sort_members, get_members,
  find_named, find_member, get_coordinator, first_member, or_host_not_found,
}

-- The host is one of the nodes that memberlist reports.
abbrev pub IsMember : (List ℕ → ℕ) → List Node → Host → Type 0
IsMember decode_meta nodes h = In h (map (to_host decode_meta) nodes)

abbrev pub Oldest : Host → List Host → Type 0
Oldest h hs = All (λ m. h.birthdate ≤ m.birthdate) hs

abbrev Sorted : List Host → Type 0
Sorted [] = Unit
Sorted (h ∷ hs) = Oldest h hs × Sorted hs

In-insert_by_birthdate :
    (a h : Host) (hs : List Host)
    → (In a (insert_by_birthdate h hs) → (a ≡ h) ⊎ In a hs)
      × ((a ≡ h) ⊎ In a hs → In a (insert_by_birthdate h hs))
unfolding insert_by_birthdate
In-insert_by_birthdate a h [] = (λ i. i, λ i. i)
In-insert_by_birthdate a h (m ∷ ms) = elim (Bool-cases (leb h.birthdate m.birthdate)) [
  | inl q ↦ rw q (λ i. i, λ i. i)
  | inr q ↦ rw q (ground (arith, In-insert_by_birthdate a h ms))
]

In-sort_members :
    (a : Host) (hs : List Host)
    → (In a (sort_members hs) → In a hs) × (In a hs → In a (sort_members hs))
unfolding sort_members
In-sort_members a [] = (λ i. i, λ i. i)
In-sort_members a (h ∷ hs) =
    ground (arith, In-insert_by_birthdate a h (sort_members hs), In-sort_members a hs)

Oldest-insert_by_birthdate :
    (a h : Host) (hs : List Host)
    → a.birthdate ≤ h.birthdate
    → Oldest a hs
    → Oldest a (insert_by_birthdate h hs)
unfolding insert_by_birthdate
Oldest-insert_by_birthdate a h [] le o = (le, tt)
Oldest-insert_by_birthdate a h (m ∷ ms) le o = elim (Bool-cases (leb h.birthdate m.birthdate)) [
  | inl q ↦ rw q (le, o)
  | inr q ↦ rw q (o.0, Oldest-insert_by_birthdate a h ms le o.1)
]

Oldest-older : (a h : Host) (hs : List Host) → a.birthdate ≤ h.birthdate → Oldest h hs → Oldest a hs
Oldest-older a h [] le o = tt
Oldest-older a h (m ∷ ms) le o = (omega (arith, le, o.0), Oldest-older a h ms le o.1)

insert_by_birthdate-Sorted :
    (h : Host) (hs : List Host) → Sorted hs → Sorted (insert_by_birthdate h hs)
unfolding insert_by_birthdate
insert_by_birthdate-Sorted h [] s = (tt, tt)
insert_by_birthdate-Sorted h (m ∷ ms) s = elim (Bool-cases (leb h.birthdate m.birthdate)) [
  | inl q ↦ rw q ((leb→le _ _ q, Oldest-older h m ms (leb→le _ _ q) s.0), s)
  | inr q ↦
      rw q
        (Oldest-insert_by_birthdate m h ms (ground arith) s.0, insert_by_birthdate-Sorted h ms s.1)
]

sort_members-Sorted : (hs : List Host) → Sorted (sort_members hs)
unfolding sort_members
sort_members-Sorted [] = tt
sort_members-Sorted (h ∷ hs) =
    insert_by_birthdate-Sorted h (sort_members hs) (sort_members-Sorted hs)

Sorted-first :
    (hs : List Host) (h : Host) (ms : List Host)
    → In h hs
    → Sorted ms
    → ((a : Host) → (In a ms → In a hs) × (In a hs → In a ms))
    → (c : Host) × (first_member ms ≡ ok c)
      × In c hs
      × ((m : Host) → In m hs → c.birthdate ≤ m.birthdate)
unfolding first_member
Sorted-first hs h [] here s same = absurd ((same h).1 here)
Sorted-first hs h (c ∷ ms) here s same = (
  c,
  refl,
  (same c).0 (inl refl),
  λ m i. elim ((same m).1 i) [
    | inl e ↦ omega (arith, ap (λ (x : Host). x.birthdate) e)
    | inr j ↦ All-In (λ m. c.birthdate ≤ m.birthdate) ms m s.0 j
  ],
)

-- On a member list that is not empty the coordinator is one of the members, and none of them has an
-- earlier birthdate.
pub get_coordinator_lem :
    (decode_meta : List ℕ → ℕ) (n : Node) (nodes : List Node)
    → (c : Host) × (get_coordinator decode_meta (n ∷ nodes) ≡ ok c)
      × IsMember decode_meta (n ∷ nodes) c
      × ((m : Host) → IsMember decode_meta (n ∷ nodes) m → c.birthdate ≤ m.birthdate)
unfolding get_coordinator get_members
get_coordinator_lem decode_meta n nodes =
    let hs = map (to_host decode_meta) (n ∷ nodes) in
    Sorted-first hs (to_host decode_meta n) (sort_members hs) (inl refl) (sort_members-Sorted hs)
      (λ a. In-sort_members a hs)

-- Two nodes whose member lists have the same hosts, in whatever order, choose the same coordinator,
-- if no two of the hosts have the same birthdate.
pub coordinator_agreed :
    (decode_meta : List ℕ → ℕ) (n n' : Node) (nodes nodes' : List Node)
    → ((m : Host)
        → (IsMember decode_meta (n ∷ nodes) m → IsMember decode_meta (n' ∷ nodes') m)
          × (IsMember decode_meta (n' ∷ nodes') m → IsMember decode_meta (n ∷ nodes) m))
    → ((a b : Host)
        → IsMember decode_meta (n ∷ nodes) a
        → IsMember decode_meta (n ∷ nodes) b
        → a.birthdate ≡ b.birthdate
        → a ≡ b)
    → get_coordinator decode_meta (n ∷ nodes) ≡ get_coordinator decode_meta (n' ∷ nodes')
coordinator_agreed decode_meta n n' nodes nodes' same apart =
    let (c, q, i, least) = get_coordinator_lem decode_meta n nodes in
    let (c', q', i', least') = get_coordinator_lem decode_meta n' nodes' in
    q
    ∙ ap ok (
        apart c c' i ((same c').1 i')
          (omega (arith, least c' ((same c').1 i'), least' c ((same c).0 i))))
    ∙ sym q'

FoundNamed : Text → List Host → Option Host → Type 0
FoundNamed name hs none = (h : Host) → In h hs → h.name ≢ name
FoundNamed name hs (some h) = In h hs × (h.name ≡ name)

find_named_lem : (name : Text) (hs : List Host) → FoundNamed name hs (find_named name hs)
unfolding FoundNamed find_named
find_named_lem name [] = λ h i. absurd i
find_named_lem name (m ∷ ms) = elim (Bool-cases (text_beq m.name name)) [
  | inl q ↦ rw q (inl refl, (text_beq_iff m.name name).0 q)
  | inr q ↦ rw q (
      FoundNamed-cons (λ e. ground (arith, text_beq_iff m.name name)) (find_named name ms)
        (find_named_lem name ms))
]
  where
    FoundNamed-cons :
        m.name ≢ name → (o : Option Host) → FoundNamed name ms o → FoundNamed name (m ∷ ms) o
    FoundNamed-cons ne none f =
        λ h i. elim i [ inl e ↦ λ q. ne (ap (λ (x : Host). x.name) (sym e) ∙ q) | inr j ↦ f h j ]
    FoundNamed-cons ne (some h) f = (inr f.0, f.1)

-- What `find_member` says of the name.
abbrev pub Found : (List ℕ → ℕ) → List Node → Text → Outcome Error Host → Type 0
Found decode_meta nodes name r =
    ((h : Host) × (r ≡ ok h) × IsMember decode_meta nodes h × (h.name ≡ name))
    ⊎ ((r ≡ fails host_not_found) × ((h : Host) → IsMember decode_meta nodes h → h.name ≢ name))

-- `findMember` gives a member with the name, or fails with errHostNotFound where no member has the
-- name.
pub find_member_lem :
    (decode_meta : List ℕ → ℕ) (nodes : List Node) (name : Text)
    → Found decode_meta nodes name (find_member decode_meta nodes name)
unfolding find_member get_members FoundNamed or_host_not_found
find_member_lem decode_meta nodes name =
    let hs = sort_members (map (to_host decode_meta) nodes) in
    by_found (find_named name hs) (find_named_lem name hs)
  where
    by_found :
        (o : Option Host)
        → FoundNamed name (sort_members (map (to_host decode_meta) nodes)) o
        → Found decode_meta nodes name (or_host_not_found o)
    by_found none f =
        inr (refl, λ h i. f h ((In-sort_members h (map (to_host decode_meta) nodes)).1 i))
    by_found (some h) f =
        inl (h, refl, (In-sort_members h (map (to_host decode_meta) nodes)).0 f.0, f.1)
