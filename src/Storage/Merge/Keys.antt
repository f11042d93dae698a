-- ===== src/Storage/Merge/Keys.antt =====
-- The inner loop of a chunk: what moving one key, and then a table's keys, does to lookups.
use native.Mathlib.Omega.{arith}
use olricdb.Prelude.{
  subst, ℕ, ◌+◌, ◌<◌, ◌≤◌, ◌≡◌, refl, sym, ap, ◌∙◌, true, Option, none, some, List, [], ◌∷◌, length,
  length-append, map, leb, ltb, ◌==◌, if◌then◌else◌, Outcome, ok, fails, nat_eq, inl, inr,
  Bool-cases, ◌⊎◌, ltb→lt, leb→le, ==_iff, ==_refl,
}
use olricdb.Prelude.Dict.{Dict, lookup, erase, erase-absent, Distinct}
use olricdb.Storage.Memory.{Error, not_enough_space, bytes, length-bytes}
use olricdb.Storage.Entry.{VData, size}
use olricdb.Storage.Table.{Table}
use olricdb.Storage.Table
use olricdb.Storage.Table.Invariant.{Stored, IsWellFormed}
use olricdb.Storage.Table.Lookup.{
  delete-some, dropped, dropped-IsWellFormed, get-dropped, get-some, get-present, get_raw-some,
  raw_of, Stored-at,
}
use olricdb.Storage.Table.Raw.{get-put_raw, put_raw_no_space, raw_of-IsRaw}
use olricdb.Storage.Merge.{done, full, paused, Merging, move_key, merge_keys, after_move}

-- What a move of `h` makes of the two tables.
pub record IsMove (h : ℕ) (fresh old fresh' old' : Table) : Type 0 where
  pub fresh_sound : IsWellFormed fresh'
  pub old_sound : IsWellFormed old'
  pub received :
      (k : ℕ) → Table.get fresh' k ≡ (if h == k then Table.get old k else Table.get fresh k)
  pub given : (k : ℕ) → Table.get old' k ≡ (if h == k then ok none else Table.get old k)
  pub index : old'.hkeys ≡ erase h old.hkeys

abbrev pub Moved : ℕ → Table → Table → Outcome Error (Table × Table) → Type 0
Moved h fresh old r =
    (r ≡ fails not_enough_space)
    ⊎ ((fresh' : Table) × (old' : Table) × (r ≡ ok (fresh', old')) × IsMove h fresh old fresh' old')

-- The move of a key that is there: it stops on a full table, before any change, or it is made.
pub move_key_lem :
    (h o : ℕ) (fresh old : Table)
    → IsWellFormed fresh
    → IsWellFormed old
    → lookup h old.hkeys ≡ some o
    → Moved h fresh old (move_key fresh old h)
unfolding move_key
move_key_lem h o fresh old wf wo q =
    elim (Bool-cases (leb fresh.allocated (length raw + fresh.offset))) [
      | inl no_room ↦ inl (
          rw (get_raw-some old h o wo q s)
            (rw (put_raw_no_space fresh h raw (leb→le _ _ no_room)) refl))
      | inr room ↦
          let (fresh', p, wf', gets) =
            get-put_raw fresh h raw s.entry wf
              (raw_of-IsRaw old.memory o s.entry s.encodable s.holds) (ground arith) in
          inr (
            fresh',
            dropped old h (size s.entry),
            rw (get_raw-some old h o wo q s) (rw p (rw (delete-some old h o wo q s) refl)),
            record {
              fresh_sound = wf';
              old_sound = dropped-IsWellFormed old h o wo q s;
              received = λ k. gets k ∙ replaced k;
              given = λ k. get-dropped old h k (size s.entry) wo;
              index = refl;
            },
          )
    ]
  where
    s : Stored old.memory old.offset o
    s = Stored-at old h o wo q

    raw : List ℕ
    raw = raw_of old.memory o s.entry

    replaced :
        (k : ℕ)
        → (if h == k then ok (some s.entry) else Table.get fresh k)
          ≡ (if h == k then Table.get old k else Table.get fresh k)
    replaced k = elim (Bool-cases (h == k)) [
      | inl e ↦ rw (e) (
          sym (
            get-some old k o s.entry (ap (λ i. lookup i old.hkeys) (sym ((==_iff h k).0 e)) ∙ q)
              s.encodable s.holds (omega (arith, s.below, wo.mapped, wo.room))))
      | inr e ↦ rw e refl
    ]

-- With room for all that the old table has, the move is made.
pub move_key_room :
    (h o : ℕ) (fresh old : Table)
    → IsWellFormed fresh
    → IsWellFormed old
    → lookup h old.hkeys ≡ some o
    → old.offset + 1 + fresh.offset < fresh.allocated
    → move_key fresh old h ≡ fails not_enough_space
    → ⊥
unfolding move_key
move_key_room h o fresh old wf wo q room e =
    let s = Stored-at old h o wo q in
    let raw = raw_of old.memory o s.entry in
    let (fresh', p, _, _) =
      get-put_raw fresh h raw s.entry wf (raw_of-IsRaw old.memory o s.entry s.encodable s.holds) (
        omega (
          arith,
          s.below,
          room,
          length-bytes old.memory o (size s.entry),
          length-append {0} (bytes old.memory o (size s.entry)) (0 ∷ []),
        )) in
    let made : move_key fresh old h ≡ ok (fresh', dropped old h (size s.entry)) =
      rw (get_raw-some old h o wo q s) (rw p (rw (delete-some old h o wo q s) refl)) in
    clash (sym made ∙ e)
  where
    clash :
        {a : Table × Table}
        → ◌≡◌ {A = Outcome Error (Table × Table)} (ok a) (fails not_enough_space)
        → ⊥
    clash r = cc

-- One of the two tables has `o` under the key, the other nothing.
abbrev pub Split : ℕ → Option VData → Table → Table → Type 0
Split k o a b =
    ((Table.get a k ≡ ok o) × (Table.get b k ≡ ok none))
    ⊎ ((Table.get a k ≡ ok none) × (Table.get b k ≡ ok o))

Split-move :
    (h p k : ℕ) (o : Option VData) (fresh old fresh' old' : Table)
    → IsWellFormed old
    → lookup h old.hkeys ≡ some p
    → IsMove h fresh old fresh' old'
    → Split k o fresh old
    → Split k o fresh' old'
Split-move h p k o fresh old fresh' old' w q m s = elim (Bool-cases (h == k)) [
  | inr e ↦ rw (m.received k, m.given k, e) s
  | inl e ↦ rw (m.received k, m.given k, e) (moved e s)
]
  where
    clash : {v : VData} → ◌≡◌ {A = Outcome Error (Option VData)} (ok (some v)) (ok none) → ⊥
    clash r = cc

    moved :
        (h == k) ≡ true
        → Split k o fresh old
        → ((Table.get old k ≡ ok o) × (◌≡◌ {A = Outcome Error (Option VData)} (ok none) (ok none)))
          ⊎ ((Table.get old k ≡ ok none)
              × (◌≡◌ {A = Outcome Error (Option VData)} (ok none) (ok o)))
    moved e (inl (a, b)) =
        let (v, found) =
          get-present old k p w (ap (λ i. lookup i old.hkeys) (sym ((==_iff h k).0 e)) ∙ q) in
        absurd (clash (sym found ∙ b))
    moved e (inr (a, b)) = inl (b, refl)

-- The two tables after a run over the keys of the old one.
pub record IsKeysMerged (fresh old : Table) (total : ℕ) (m : Merging) : Type 0 where
  pub fresh_sound : IsWellFormed m.fresh
  pub old_sound : IsWellFormed m.old
  pub counted : length m.old.hkeys + m.total ≡ length old.hkeys + total
  pub grows : total ≤ m.total
  pub emptied : m.progress ≡ done → m.old.hkeys ≡ []
  pub long : m.progress ≡ paused → 1000 < m.total
  pub split : (k : ℕ) (o : Option VData) → Split k o fresh old → Split k o m.fresh m.old

abbrev names : Dict ℕ ℕ → List ℕ
names hs = map (λ e. e.0) hs

abbrev KeysRun : Dict ℕ ℕ → Table → Table → ℕ → Type 0
KeysRun hs fresh old total =
    (m : Merging) × (merge_keys (names hs) fresh old total ≡ ok m) × IsKeysMerged fresh old total m

module _ (h p : ℕ) (hs : Dict ℕ ℕ) (fresh old : Table) (total : ℕ) (wf : IsWellFormed fresh)
    (wo : IsWellFormed old) (q : old.hkeys ≡ (h, p) ∷ hs) where
  present : lookup h old.hkeys ≡ some p
  present = rw q (rw (==_refl h) refl)

  rest : {fresh' old' : Table} → IsMove h fresh old fresh' old' → old'.hkeys ≡ hs
  rest m =
      let d : Distinct ((h, p) ∷ hs) = subst Distinct q wo.distinct in
      m.index ∙ ap (erase h) q ∙ rw (==_refl h) (erase-absent h hs d.0)

  merge_keys_step :
      ((fresh' old' : Table)
        → IsWellFormed fresh'
        → IsWellFormed old'
        → old'.hkeys ≡ hs
        → KeysRun hs fresh' old' (total + 1))
      → Moved h fresh old (move_key fresh old h)
      → KeysRun ((h, p) ∷ hs) fresh old total
  unfolding merge_keys
  merge_keys_step again (inl stopped) = (
    record { fresh = fresh; old = old; total = total; progress = full },
    rw stopped refl,
    record {
      fresh_sound = wf;
      old_sound = wo;
      counted = refl;
      grows = omega arith;
      emptied = λ d. cc;
      long = λ d. cc;
      split = λ k o s. s;
    },
  )
  merge_keys_step again (inr (fresh', old', e, m)) = elim (Bool-cases (ltb 1000 (total + 1))) [
    | inl enough ↦ (
      record { fresh = fresh'; old = old'; total = total + 1; progress = paused },
      rw e (rw (enough, after_move) refl),
      record {
        fresh_sound = m.fresh_sound;
        old_sound = m.old_sound;
        counted =
            omega
              (arith, ap (λ (l : Dict ℕ ℕ). length l) (rest m), ap (λ (l : Dict ℕ ℕ). length l) q);
        grows = omega arith;
        emptied = λ d. cc;
        long = λ d. ltb→lt _ _ enough;
        split = λ k o s. Split-move h p k o fresh old fresh' old' wo present m s;
      },
    )
    | inr go_on ↦
        let (r, eq, k) = again fresh' old' m.fresh_sound m.old_sound (rest m) in
        (
          r,
          rw e (rw (go_on, after_move) eq),
          record {
            fresh_sound = k.fresh_sound;
            old_sound = k.old_sound;
            counted = omega (
              arith,
              k.counted,
              ap (λ (l : Dict ℕ ℕ). length l) (rest m),
              ap (λ (l : Dict ℕ ℕ). length l) q,
            );
            grows = omega (arith, k.grows);
            emptied = k.emptied;
            long = k.long;
            split = λ j o s. k.split j o (Split-move h p j o fresh old fresh' old' wo present m s);
          },
        )
  ]

-- The run always comes to a result. No lookup over the two tables is lost or changed by it, as long
-- as one of them at most has the key.
pub merge_keys_lem :
    (hs : Dict ℕ ℕ) (fresh old : Table) (total : ℕ)
    → IsWellFormed fresh
    → IsWellFormed old
    → old.hkeys ≡ hs
    → KeysRun hs fresh old total
unfolding merge_keys
merge_keys_lem [] fresh old total wf wo q = (
  record { fresh = fresh; old = old; total = total; progress = done },
  refl,
  record {
    fresh_sound = wf;
    old_sound = wo;
    counted = refl;
    grows = omega arith;
    emptied = λ d. q;
    long = λ d. cc;
    split = λ k o s. s;
  },
)
merge_keys_lem ((h, p) ∷ hs) fresh old total wf wo q =
    merge_keys_step h p hs fresh old total wf wo q
      (λ fresh' old' a b c. merge_keys_lem hs fresh' old' (total + 1) a b c)
      (move_key_lem h p fresh old wf wo (present h p hs fresh old total wf wo q))
