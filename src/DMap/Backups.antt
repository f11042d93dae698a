-- ===== src/DMap/Backups.antt =====
-- What a write that waits for its backups knows of them.
use native.Mathlib.Omega.{arith}
use olricdb.Prelude.{
  ℕ, zero, suc, ◌-◌, ◌++◌, length, take, take-drop, length-drop, ltb, if◌then◌else◌, ◌≡◌, refl, sym,
  ap, ◌∙◌, ◌⊎◌, inl, inr, Option, none, some, List, [], ◌∷◌, ◌==◌, Text, Outcome, ok, fails,
  Bool-cases, In, subst,
}
use olricdb.Protocol.Code.{Message, status_ok}
use olricdb.Protocol.Code.OpCode
use olricdb.Discovery.{Host}
use olricdb.Routing.{calc_max_backup_count}
use olricdb.DMap.{
  Request, Shard, Node, Env, Error, transport, Result, and_then-ok, backup_copy, or_transport,
  check_status, status_error, request_to, get_shard,
}
use olricdb.DMap.Put.{
  put_request, backup_targets, count_answer, send_backups, backup_outcome, put_key_val_backup,
}

-- One of the hosts has answered the request without an error.
abbrev pub Acknowledged : Env → Message → List Host → Type 0
Acknowledged env req hs =
    (h : Host) × In h hs
    × (resp : Message) × (or_transport
          (env.network (record { addr = h.name; op = OpCode.put_backup; message = req }))
        ≡ ok resp)

or_transport_cases :
    (o : Option Message)
    → ((m : Message) × (or_transport o ≡ ok m)) ⊎ ((e : Error) × (or_transport o ≡ fails e))
unfolding or_transport check_status
or_transport_cases none = inr (transport, refl)
or_transport_cases (some m) = elim (Bool-cases (m.header.status == status_ok)) [
  | inl q ↦ inl (m, rw q refl)
  | inr q ↦ inr (status_error m.header.status m.value, rw q refl)
]

abbrev Counted : Env → Message → List Host → ℕ × Option Error → Type 0
Counted env req hs r =
    Acknowledged env req hs ⊎ ((r.0 ≡ 0) × ((hs ≡ []) ⊎ ((e : Error) × (r.1 ≡ some e))))

send_backups_lem :
    (env : Env) (n : Node) (hs : List Host) (req : Message)
    → Counted env req hs (send_backups env n hs req).1
unfolding send_backups request_to count_answer
send_backups_lem env n [] req = inr (refl, inl refl)
send_backups_lem env n (h ∷ hs) req =
    by_answer
      (or_transport_cases
        (env.network (record { addr = h.name; op = OpCode.put_backup; message = req })))
      (send_backups_lem env
        (record n {
          sent = record { addr = h.name; op = OpCode.put_backup; message = req } ∷ n.sent;
        })
        hs req)
  where
    r : Request
    r = record { addr = h.name; op = OpCode.put_backup; message = req }

    n1 : Node
    n1 = record n { sent = r ∷ n.sent }

    by_failure :
        (e : Error)
        → Counted env req hs (send_backups env n1 hs req).1
        → Counted env req (h ∷ hs) (count_answer (fails e) (send_backups env n1 hs req)).1
    by_failure e (inl (g, i, m, q)) = inl (g, inr i, m, q)
    by_failure e (inr (z, _)) = inr (z, inr (e, refl))

    by_answer :
        ((m : Message) × (or_transport (env.network r) ≡ ok m))
          ⊎ ((e : Error) × (or_transport (env.network r) ≡ fails e))
        → Counted env req hs (send_backups env n1 hs req).1
        → Counted env req (h ∷ hs) (send_backups env n (h ∷ hs) req).1
    by_answer (inl (m, q)) rest = inl (h, inl refl, m, q)
    by_answer (inr (e, q)) rest =
        subst (λ o. Counted env req (h ∷ hs) (count_answer o (send_backups env n1 hs req)).1)
          (sym q) (by_failure e rest)

backup_outcome_lem :
    (x : Node × (ℕ × Option Error)) (n' : Node) (e : Error)
    → x.1.0 ≡ 0
    → x.1.1 ≡ some e
    → backup_outcome x ≡ (n', ok tt)
    → ⊥
unfolding backup_outcome
backup_outcome_lem (n, (zero, some e1)) n' e z q r = clash (ap (λ (x : Result Unit). x.1) r)
  where
    clash : ◌≡◌ {A = Outcome Error Unit} (fails e1) (ok tt) → ⊥
    clash p = cc
backup_outcome_lem (n, (zero, none)) n' e z q r = clash q
  where
    clash : ◌≡◌ {A = Option Error} none (some e) → ⊥
    clash p = cc
backup_outcome_lem (n, (suc k, o)) n' e z q r = omega (arith, z)

abbrev pub least : ℕ → ℕ → ℕ
least x y = if ltb x y then x else y

-- How many backups are to be written: as many as are configured, but three at most, no more than
-- there are other members, and no more than there are owners.
abbrev pub wanted_backups : Env → Node → List Host → ℕ
wanted_backups env n owners =
    least (length owners) (least (least 3 n.config.backup_count) (env.mem_count - 1))

calc_max_backup_count_lem :
    (wanted mem : ℕ) → calc_max_backup_count wanted mem ≡ least (least 3 wanted) (mem - 1)
unfolding calc_max_backup_count
calc_max_backup_count_lem wanted mem = ground arith

-- The targets are the last owners.
backup_targets_lem :
    (count : ℕ) (owners : List Host)
    → (front : List Host) × (owners ≡ front ++ backup_targets count owners)
      × (length (backup_targets count owners) ≡ least (length owners) count)
unfolding backup_targets
backup_targets_lem count owners = elim (Bool-cases (ltb count (length owners))) [
  | inl q ↦ (
    take (length owners - count) owners,
    rw q (take-drop (length owners - count) owners),
    rw q (length-drop (length owners - count) owners ∙ ground arith),
  )
  | inr q ↦ ([], rw q refl, rw q (ground arith))
]

-- Where `putKeyValBackup` succeeds, no backup is wanted, or one of the last owners of the backup
-- partition, as many of them as are wanted, has answered OpPutBackup without an error. As many are
-- wanted as are configured, but three at most, no more than there are other members, and no more
-- than there are owners.
pub put_key_val_backup_lem :
    (env : Env) (n n' : Node) (hkey : ℕ) (name key : Text) (value : List ℕ) (timeout : ℕ)
    (s : Shard)
    → get_shard backup_copy n hkey ≡ (n, ok s)
    → put_key_val_backup env n hkey name key value timeout ≡ (n', ok tt)
    → (front last : List Host) × (s.part.owners ≡ front ++ last)
      × (length last ≡ wanted_backups env n s.part.owners)
      × ((wanted_backups env n s.part.owners ≡ 0)
          ⊎ Acknowledged env (put_request name key value timeout) last)
unfolding put_key_val_backup
put_key_val_backup_lem env n n' hkey name key value timeout s here done =
    let (front, split, size) = backup_targets_lem most s.part.owners in
    let enough : length targets ≡ wanted_backups env n s.part.owners =
      size
      ∙ ap (least (length s.part.owners))
          (calc_max_backup_count_lem n.config.backup_count env.mem_count) in
    (front, targets, split, enough, by_count enough (send_backups_lem env n targets req))
  where
    most : ℕ
    most = calc_max_backup_count n.config.backup_count env.mem_count

    targets : List Host
    targets = backup_targets most s.part.owners

    req : Message
    req = put_request name key value timeout

    outcome : backup_outcome (send_backups env n targets req) ≡ (n', ok tt)
    outcome = sym (and_then-ok _ (get_shard backup_copy n hkey) n s here) ∙ done

    by_count :
        length targets ≡ wanted_backups env n s.part.owners
        → Counted env req targets (send_backups env n targets req).1
        → (wanted_backups env n s.part.owners ≡ 0) ⊎ Acknowledged env req targets
    by_count size (inl a) = inr a
    by_count size (inr (z, inl e)) = inl (sym size ∙ ap length e)
    by_count size (inr (z, inr (e, q))) =
        absurd (backup_outcome_lem (send_backups env n targets req) n' e z q outcome)
