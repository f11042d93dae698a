-- ===== src/Snapshot/Batches.antt =====
-- The loop of `syncDMap`: what the batch of writes holds for each key.
use native.Mathlib.Omega.{arith}
use olricdb.Prelude.{
  ℕ, ◌≤◌, ◌<◌, ◌^◌, ◌≡◌, refl, sym, ap, ◌∙◌, subst, true, false, Option, none, some, List, [], ◌∷◌,
  length, ok, inl, inr, nat_eq, Text, text_eq, text_beq, text_beq_iff, ◌==◌, ==_iff, All,
  Bool-cases, Option-cases, ◌≢◌,
}
use olricdb.Prelude.Dict.{
  Dict, lookup, insert, erase, lookup-insert, lookup-erase, All-insert, All-erase,
}
use olricdb.Prelude.Bytes.{from_be, from_be-be, length-be}
use olricdb.Storage.Store.{Storage, or_not_found}
use olricdb.Storage.Store
use olricdb.Snapshot.{
  LogOp, log_put, log_delete, KeySet, dmap_key, bkey, Batch, stage, stage_put, sync_key, sync_keys,
}
use olricdb.Snapshot.Database.{Write, set, remove, Fetched, value, Badger, replay}

-- The keys that the batch writes are no other's.
pub bkey-injective : (h k : ℕ) → h < 2 ^ 64 → k < 2 ^ 64 → bkey h ≡ bkey k → h ≡ k
unfolding bkey
bkey-injective h k hb kb e = sym (from_be-be 8 h hb) ∙ ap from_be e ∙ from_be-be 8 k kb

bkey-differs :
    (h k : ℕ) → h < 2 ^ 64 → k < 2 ^ 64 → (k == h) ≡ false → text_beq (bkey k) (bkey h) ≡ false
bkey-differs h k hb kb ne = elim (Bool-cases (text_beq (bkey k) (bkey h))) [
  | inl e ↦ absurd (ground (arith, bkey-injective k h kb hb ((text_beq_iff (bkey k) (bkey h)).0 e)))
  | inr e ↦ e
]

pub length-bkey : (h : ℕ) → length (bkey h) ≡ 8
unfolding bkey
length-bkey h = length-be 8 h

pub dmap_key-long : (part_id : ℕ) (name : Text) → 10 ≤ length (dmap_key part_id name)
unfolding dmap_key
dmap_key-long part_id name = omega arith

pub text_beq_refl : (t : Text) → text_beq t t ≡ true
text_beq_refl t = (text_beq_iff t t).1 refl

-- A DMap's list of keys is not under the key of an entry.
pub dmap_key-apart :
    (h part_id : ℕ) (name : Text) → text_beq (bkey h) (dmap_key part_id name) ≡ false
dmap_key-apart h part_id name = elim (Bool-cases (text_beq (bkey h) (dmap_key part_id name))) [
  | inl e ↦ absurd (
      omega (
        arith,
        length-bkey h,
        dmap_key-long part_id name,
        ap length ((text_beq_iff (bkey h) (dmap_key part_id name)).0 e),
      ))
  | inr e ↦ e
]

-- What the disk has of a key, next to the raw entry that the storage has.
abbrev pub Agrees : Fetched → Option {0} Unit → Option (List ℕ) → Type 0
Agrees f o (some raw) = (f ≡ value raw) × (o ≡ some tt)
Agrees f o none = o ≡ none

-- The operation that was logged last for a key tells whether the storage has it.
abbrev pub IsCurrent : LogOp → Option (List ℕ) → Type 0
IsCurrent log_put o = (raw : List ℕ) × (o ≡ some raw)
IsCurrent log_delete o = o ≡ none

-- `c` is the content of the storage.
abbrev pub Reads : Storage → (ℕ → Option (List ℕ)) → Type 0
Reads str c = (h : ℕ) → Store.get_raw str h ≡ or_not_found (c h)

module _ {D : Type 0} (b : Badger D) (c : ℕ → Option (List ℕ)) (d : D) where
  -- A key's turn in the loop, on a storage with the content `c`.
  unfoldable pub step : Batch → ℕ → LogOp → Batch
  unfolding stage bkey
  step acc k log_put = elim (c k) [
    | some raw ↦ stage b d acc k log_put (set (bkey k) raw) (insert k tt acc.hkeys)
    | none ↦ acc
  ]
  step acc k log_delete = stage b d acc k log_delete (remove (bkey k)) (erase k acc.hkeys)

  unfoldable pub steps : Batch → Dict ℕ LogOp → Batch
  unfolding step
  steps acc [] = acc
  steps acc ((k, op) ∷ rest) = steps (step acc k op) rest

  pub sync_keys-steps :
      (str : Storage)
      → Reads str c
      → (m : Dict ℕ LogOp) (acc : Batch) → sync_keys b d str acc m ≡ ok (steps acc m)
  unfolding sync_keys sync_key stage_put steps step or_not_found
  sync_keys-steps str r [] acc = refl
  sync_keys-steps str r ((k, log_put) ∷ m) acc = elim (Option-cases (c k)) [
    | inl q ↦ rw (r k, q, step) (sync_keys-steps str r m acc)
    | inr (raw, q) ↦ rw (r k, q, step) (sync_keys-steps str r m _)
  ]
  sync_keys-steps str r ((k, log_delete) ∷ m) acc = sync_keys-steps str r m _

  -- What the batch holds for a key, unless it failed.
  unfoldable pub Staged : Batch → ℕ → Type 0
  Staged acc h =
      lookup h acc.failed ≡ none
      → Agrees (replay acc.writes (bkey h) (b.read d (bkey h))) (lookup h acc.hkeys) (c h)

  -- A key that the batch does not touch.
  pub record IsKept (acc acc' : Batch) (h : ℕ) : Type 0 where
    pub failed : lookup h acc'.failed ≡ lookup h acc.failed
    pub hkeys : lookup h acc'.hkeys ≡ lookup h acc.hkeys
    pub writes : (f : Fetched) → replay acc'.writes (bkey h) f ≡ replay acc.writes (bkey h) f

  stage-IsKept :
      (acc : Batch) (k h : ℕ) (op : LogOp) (w : Write) (hs : KeySet)
      → (k == h) ≡ false
      → lookup h hs ≡ lookup h acc.hkeys
      → ((f : Fetched) → replay (w ∷ acc.writes) (bkey h) f ≡ replay acc.writes (bkey h) f)
      → IsKept acc (stage b d acc k op w hs) h
  unfolding stage
  stage-IsKept acc k h op w hs ne same ws = elim (Bool-cases (b.accepts d acc.writes w)) [
    | inl q ↦ rw q (record { failed = refl; hkeys = same; writes = ws })
    | inr q ↦ rw q (record {
      failed = lookup-insert k h op acc.failed ∙ rw ne refl;
      hkeys = refl;
      writes = λ f. refl;
    })
  ]

  stage-Staged :
      (acc : Batch) (k : ℕ) (op : LogOp) (w : Write) (hs : KeySet)
      → Agrees (replay (w ∷ acc.writes) (bkey k) (b.read d (bkey k))) (lookup k hs) (c k)
      → Staged (stage b d acc k op w hs) k
  unfolding stage Staged
  stage-Staged acc k op w hs a = elim (Bool-cases (b.accepts d acc.writes w)) [
    | inl q ↦ rw q (λ _. a)
    | inr q ↦ rw q (λ n. absurd (ground (arith, lookup-insert k k op acc.failed, ==_iff k k)))
  ]

  step-IsKept :
      (acc : Batch) (k h : ℕ) (op : LogOp)
      → h < 2 ^ 64
      → k < 2 ^ 64
      → (k == h) ≡ false
      → IsKept acc (step acc k op) h
  unfolding step
  step-IsKept acc k h log_put hb kb ne = elim (Option-cases (c k)) [
    | inl q ↦ rw (q, step) (record { failed = refl; hkeys = refl; writes = λ f. refl })
    | inr (raw, q) ↦
        rw (q, step)
          (stage-IsKept acc k h log_put (set (bkey k) raw) (insert k tt acc.hkeys) ne
            (lookup-insert k h tt acc.hkeys ∙ rw ne refl)
            (λ f. rw (bkey-differs h k hb kb ne) refl))
  ]
  step-IsKept acc k h log_delete hb kb ne =
      stage-IsKept acc k h log_delete (remove (bkey k)) (erase k acc.hkeys) ne
        (lookup-erase k h acc.hkeys ∙ rw ne refl) (λ f. rw (bkey-differs h k hb kb ne) refl)

  step-Staged : (acc : Batch) (k : ℕ) (op : LogOp) → IsCurrent op (c k) → Staged (step acc k op) k
  unfolding step
  step-Staged acc k log_put (raw, q) =
      rw (q, step)
        (stage-Staged acc k log_put (set (bkey k) raw) (insert k tt acc.hkeys) (
          rw q (
            rw (text_beq_refl (bkey k)) refl,
            ground (arith, lookup-insert k k tt acc.hkeys, ==_iff k k),
          )))
  step-Staged acc k log_delete q =
      stage-Staged acc k log_delete (remove (bkey k)) (erase k acc.hkeys)
        (rw q (ground (arith, lookup-erase k k acc.hkeys, ==_iff k k)))

  -- The writes of the batch are under keys of entries only.
  unfoldable pub IsApart : List ℕ → Batch → Type 0
  IsApart k acc = (f : Fetched) → replay acc.writes k f ≡ f

  module _ (k' : List ℕ) (apart : (h : ℕ) → text_beq (bkey h) k' ≡ false) where
    stage-IsApart :
        (acc : Batch) (k : ℕ) (op : LogOp) (w : Write) (hs : KeySet)
        → ((f : Fetched) → replay (w ∷ acc.writes) k' f ≡ replay acc.writes k' f)
        → IsApart k' acc
        → IsApart k' (stage b d acc k op w hs)
    unfolding stage IsApart
    stage-IsApart acc k op w hs ws a = λ f. elim (Bool-cases (b.accepts d acc.writes w)) [
      | inl q ↦ rw q (ws f ∙ a f)
      | inr q ↦ rw q (a f)
    ]

    step-IsApart : (acc : Batch) (k : ℕ) (op : LogOp) → IsApart k' acc → IsApart k' (step acc k op)
    unfolding step
    step-IsApart acc k log_put a = elim (Option-cases (c k)) [
      | inl q ↦ rw (q, step) a
      | inr (raw, q) ↦
          rw (q, step)
            (stage-IsApart acc k log_put (set (bkey k) raw) (insert k tt acc.hkeys)
              (λ f. rw (apart k) refl) a)
    ]
    step-IsApart acc k log_delete a =
        stage-IsApart acc k log_delete (remove (bkey k)) (erase k acc.hkeys)
          (λ f. rw (apart k) refl) a

    pub steps-IsApart : (m : Dict ℕ LogOp) (acc : Batch) → IsApart k' acc → IsApart k' (steps acc m)
    unfolding steps
    steps-IsApart [] acc a = a
    steps-IsApart ((k, op) ∷ m) acc a = steps-IsApart m (step acc k op) (step-IsApart acc k op a)

  -- The log's keys are 64-bit, and its operations are current.
  unfoldable pub IsLog : Dict ℕ LogOp → Type 0
  IsLog m = All (λ e. (e.0 < 2 ^ 64) × IsCurrent e.1 (c e.0)) m

  pub steps-IsKept :
      (h : ℕ)
      → h < 2 ^ 64
      → (m : Dict ℕ LogOp) (acc : Batch) → IsLog m
      → lookup h m ≡ none
      → IsKept acc (steps acc m) h
  unfolding steps IsLog
  steps-IsKept h hb [] acc l n = record { failed = refl; hkeys = refl; writes = λ f. refl }
  steps-IsKept h hb ((k, op) ∷ m) acc l n =
      let ne : (k == h) ≡ false = ground arith in
      let one = step-IsKept acc k h op hb l.0.0 ne in
      let rest = steps-IsKept h hb m (step acc k op) l.1 (ground arith) in
      record {
        failed = rest.failed ∙ one.failed;
        hkeys = rest.hkeys ∙ one.hkeys;
        writes = λ f. rest.writes f ∙ one.writes f;
      }

  pub kept-Staged : (acc acc' : Batch) (h : ℕ) → IsKept acc acc' h → Staged acc h → Staged acc' h
  unfolding Staged
  kept-Staged acc acc' h k s =
      λ n. rw (k.writes (b.read d (bkey h)), k.hkeys) (s (sym k.failed ∙ n))

  -- A key that is staged stays staged, and every key of the log comes to be.
  steps-Staged :
      (h : ℕ)
      → h < 2 ^ 64
      → (m : Dict ℕ LogOp) (acc : Batch) → IsLog m
      → Staged acc h
      → Staged (steps acc m) h
  unfolding steps IsLog
  steps-Staged h hb [] acc l s = s
  steps-Staged h hb ((k, op) ∷ m) acc l s =
      steps-Staged h hb m (step acc k op) l.1 (elim (Bool-cases (k == h)) [
        | inl e ↦ subst (Staged (step acc k op)) ((==_iff k h).0 e) (step-Staged acc k op l.0.1)
        | inr ne ↦ kept-Staged acc (step acc k op) h (step-IsKept acc k h op hb l.0.0 ne) s
      ])

  pub logged-Staged :
      (h : ℕ)
      → h < 2 ^ 64
      → (m : Dict ℕ LogOp) (acc : Batch) → IsLog m
      → lookup h m ≢ none
      → Staged (steps acc m) h
  unfolding steps IsLog
  logged-Staged h hb [] acc l n = absurd (n refl)
  logged-Staged h hb ((k, op) ∷ m) acc l n = elim (Bool-cases (k == h)) [
    | inl e ↦
        steps-Staged h hb m (step acc k op) l.1
          (subst (Staged (step acc k op)) ((==_iff k h).0 e) (step-Staged acc k op l.0.1))
    | inr ne ↦ logged-Staged h hb m (step acc k op) l.1 (λ q. n (rw ne q))
  ]

  -- The set of keys keeps to 64 bits.
  IsBounded : Batch → Type 0
  IsBounded acc = All (λ e. e.0 < 2 ^ 64) acc.hkeys

  stage-IsBounded :
      (acc : Batch) (k : ℕ) (op : LogOp) (w : Write) (hs : KeySet)
      → All (λ e. e.0 < 2 ^ 64) hs
      → IsBounded acc
      → IsBounded (stage b d acc k op w hs)
  unfolding stage IsBounded
  stage-IsBounded acc k op w hs new old = elim (Bool-cases (b.accepts d acc.writes w)) [
    | inl q ↦ rw q new
    | inr q ↦ rw q old
  ]

  pub steps-IsBounded :
      (m : Dict ℕ LogOp) (acc : Batch)
      → IsLog m
      → All (λ e. e.0 < 2 ^ 64) acc.hkeys
      → All (λ e. e.0 < 2 ^ 64) (steps acc m).hkeys
  unfolding steps step IsLog IsBounded
  steps-IsBounded [] acc l a = a
  steps-IsBounded ((k, log_delete) ∷ m) acc l a = steps-IsBounded m _ l.1 (
      stage-IsBounded acc k log_delete (remove (bkey k)) (erase k acc.hkeys)
        (All-erase (λ e. e.0 < 2 ^ 64) k acc.hkeys a) a)
  steps-IsBounded ((k, log_put) ∷ m) acc l a = elim (Option-cases (c k)) [
    | inl q ↦ rw (q, step, steps) (steps-IsBounded m acc l.1 a)
    | inr (raw, q) ↦
        rw (q, step, steps)
          (steps-IsBounded m _ l.1 (
            stage-IsBounded acc k log_put (set (bkey k) raw) (insert k tt acc.hkeys)
              (All-insert (λ e. e.0 < 2 ^ 64) k tt acc.hkeys l.0.0 a) a))
  ]
