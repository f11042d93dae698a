-- ===== src/Snapshot/Tests/Restart.antt =====
-- The theorem of the restart, on a disk with one DMap and a serializer of registries.
use native.Mathlib.Omega.{arith}
use olricdb.Prelude.{
  ℕ, zero, suc, ◌≡◌, refl, sym, ap, ◌∙◌, subst, ==_iff, true, false, none, some, List, [], ◌∷◌, ok,
  inl, inr, Text, text_eq, nat_eq, text_beq, text_beq_iff, ◌==◌, Bool-cases,
}
use olricdb.Prelude.Dict.{Dict, lookup}
use olricdb.Prelude.Codec.{Codec, IsLossless}
use olricdb.Storage.Store.{Storage}
use olricdb.Snapshot.{OnDiskDMaps, Snapshot, primary_dmap_key, decoded, dmap_key}
use olricdb.Snapshot.Record.{names_of}
use olricdb.Snapshot.Batches.{text_beq_refl, dmap_key-apart}
use olricdb.DMap.{Shard, Node, primary_copy, shards}
use olricdb.Startup.{restore_from_snapshot}
use olricdb.Startup.Turn.{IsNamed}
use olricdb.Startup.Registered.{IsRestorable, IsTaking, kept-IsRestorable}
use olricdb.Startup.Reloaded.{AllRestorable, Has, restore_from_snapshot_lem}
use olricdb.Snapshot.Tests.{
  Disk, shelf, shelf-IsBadger, key_codec, granted, name, str, contents, contents-Stores,
  contents-small, disk, disk-IsMirror,
}

-- A registry as a list of numbers: a letter, the end of a name, and the end of a partition.
abbrev put_letters : Text → List ℕ → List ℕ
put_letters [] k = k
put_letters (x ∷ xs) k = suc (suc x) ∷ put_letters xs k

abbrev put_names : Dict Text Unit → List ℕ → List ℕ
put_names [] k = k
put_names ((n, u) ∷ ns) k = put_letters n (1 ∷ put_names ns k)

abbrev put_parts : OnDiskDMaps → List ℕ
put_parts [] = []
put_parts ((p, ns) ∷ m) = put_names ns (0 ∷ p ∷ put_parts m)

abbrev push_letter : ℕ → OnDiskDMaps → OnDiskDMaps
push_letter x ((p, (n, u) ∷ ns) ∷ m) = (p, (x ∷ n, u) ∷ ns) ∷ m
push_letter x ((p, []) ∷ m) = (p, []) ∷ m
push_letter x [] = []

abbrev push_name : OnDiskDMaps → OnDiskDMaps
push_name ((p, ns) ∷ m) = (p, ([], tt) ∷ ns) ∷ m
push_name [] = []

abbrev parts_of : List ℕ → OnDiskDMaps
parts_of [] = []
parts_of (zero ∷ []) = []
parts_of (zero ∷ p ∷ k) = (p, []) ∷ parts_of k
parts_of (suc zero ∷ k) = push_name (parts_of k)
parts_of (suc (suc x) ∷ k) = push_letter x (parts_of k)

letters_back :
    (p : ℕ) (ns : Dict Text Unit) (m : OnDiskDMaps) (n : Text) (k : List ℕ)
    → parts_of k ≡ (p, ([], tt) ∷ ns) ∷ m
    → parts_of (put_letters n k) ≡ (p, (n, tt) ∷ ns) ∷ m
letters_back p ns m [] k e = e
letters_back p ns m (x ∷ n) k e = ap (push_letter x) (letters_back p ns m n k e)

names_back :
    (p : ℕ) (m : OnDiskDMaps) (ns : Dict Text Unit) (k : List ℕ)
    → parts_of k ≡ (p, []) ∷ m
    → parts_of (put_names ns k) ≡ (p, ns) ∷ m
names_back p m [] k e = e
names_back p m ((n, u) ∷ ns) k e =
    letters_back p ns m n (1 ∷ put_names ns k) (ap push_name (names_back p m ns k e))

parts_back : (m : OnDiskDMaps) → parts_of (put_parts m) ≡ m
parts_back [] = refl
parts_back ((p, ns) ∷ m) =
    names_back p m ns (0 ∷ p ∷ put_parts m) (ap (λ i. (p, []) ∷ i) (parts_back m))

abbrev registry_codec : Codec OnDiskDMaps
registry_codec = record { marshal = λ m. some (put_parts m); unmarshal = λ l. some (parts_of l) }

registry_codec-IsLossless : IsLossless registry_codec
registry_codec-IsLossless m res e =
    ap (λ o. elim o [ some l ↦ some (parts_of l) | none ↦ none ]) (sym e) ∙ ap some (parts_back m)

registry_codec-IsTaking : IsTaking (shelf true) key_codec registry_codec
registry_codec-IsTaking = record {
  commits = λ d k v. refl;
  marshals = λ m. (put_parts m, refl);
  lossless = registry_codec-IsLossless;
}

abbrev on_disk : OnDiskDMaps
on_disk = (3, (name, tt) ∷ []) ∷ []

abbrev stopped : Snapshot Disk
stopped = record { db = (primary_dmap_key, put_parts on_disk) ∷ disk; workers = []; oplogs = [] }

-- The node as `New` makes it, with partition 3 only.
abbrev fresh : Node
fresh = record {
  this = record { name = []; birthdate = 0 };
  config = record {
    partition_count = 4;
    backup_count = 1;
    async_backups = false;
    with_snapshot = true;
  };
  primary = (3, record { part = record { owners = []; count = 0 }; dmaps = [] }) ∷ [];
  backup = [];
  sent = [];
}

disk-IsRestorable : IsRestorable (shelf true) key_codec disk 3 name str
unfolding disk-IsMirror decoded
disk-IsRestorable = record {
  content = contents;
  stores = contents-Stores;
  small = contents-small;
  mirror = disk-IsMirror;
  listed = rw (dmap_key-apart 7 3 name, text_beq_refl (dmap_key 3 name)) refl;
}

originals : ℕ → Text → Storage
originals p n = str

only_one : (p : ℕ) (n : Text) → IsNamed p n on_disk → (3 ≡ p) × (name ≡ n)
unfolding names_of
only_one p n i = elim (Bool-cases (3 == p)) [
  | inr q ↦ absurd (i (rw (names_of, q) refl))
  | inl q ↦ elim (Bool-cases (text_beq name n)) [
    | inl q' ↦ ((==_iff 3 p).0 q, (text_beq_iff name n).0 q')
    | inr q' ↦ absurd (i (rw (names_of, q, q') refl))
  ]
]

stopped-IsRestorable : IsRestorable (shelf true) key_codec stopped.db 3 name str
stopped-IsRestorable =
    kept-IsRestorable (shelf true) key_codec registry_codec primary_copy disk stopped.db 3 name str
      (λ k apart. rw apart refl) disk-IsRestorable

all_restorable :
    AllRestorable (shelf true) key_codec primary_copy originals on_disk fresh stopped.db
unfolding shards originals
all_restorable p n i =
    let (e, e') = only_one p n i in
    (
      subst (λ q. IsRestorable (shelf true) key_codec stopped.db q n str) e
          (subst (λ x. IsRestorable (shelf true) key_codec stopped.db 3 x str) e'
            stopped-IsRestorable),
      subst (λ q. (sh : Shard) × (lookup q fresh.primary ≡ some sh)) e (_, refl),
    )

restore_from_snapshot_lem_example :
    (n' : Node) × (s' : Snapshot Disk) × (restore_from_snapshot
        (shelf true)
        granted
        2
        registry_codec
        key_codec
        2
        primary_copy
        fresh
        stopped
      ≡ ((n', s'), ok tt))
    × ((p : ℕ) (n : Text) → IsNamed p n on_disk → Has primary_copy originals n' p n)
    × ((p : ℕ) (n : Text)
        → Has primary_copy originals fresh p n
        → Has primary_copy originals n' p n)
unfolding decoded
restore_from_snapshot_lem_example =
    restore_from_snapshot_lem (shelf true) key_codec registry_codec shelf-IsBadger
      registry_codec-IsTaking granted (λ n. refl) 0 primary_copy originals 2 on_disk fresh stopped
      refl (omega arith) ((λ e. ground arith), tt) all_restorable
