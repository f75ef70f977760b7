-- ===== src/Worker/Pop/Custody.antt =====
-- commitMatch and popOnce of internal/worker/worker.go beside the entries in flight, whatever becomes
-- of their round trips.
use matchmaking.Shared.{
  ℕ, zero, suc, ◌<◌, String, ◌≡◌, refl, sym, ap, subst, Bool, false, Option, none, some, List, [],
  ◌∷◌, ◌++◌, arith, leb, length, eqb, inl, inr, Bool-cases,
}
use matchmaking.Model.{Time, Shard, Match}
use matchmaking.Json.{Json}
use matchmaking.Redis.{Redis, Keyspace}
use matchmaking.Effects.{World, M, query, now, call-cases, call-keeps, store-publish, match_forming}
use matchmaking.Keys
use matchmaking.Worker.Select.{BufferedEntry, select_group}
use matchmaking.Worker.Select.Group.{select_group-cases, select_group-perm}
use matchmaking.Worker.Scripts.{commit_match_script}
use matchmaking.Worker.Pop.{
  MatchMaker, Commit, Popped, returned, panicked, out_of_fuel, members, player_ids, commit_keys,
  commit_args, new_match, next_seq, pop_batch, repush_group, split_cancelled, uncancel, flags_of,
  parse_candidates, announce, after_commit, commit_encoded, commit_match, after_group, after_select,
  form_matches, admit, with_candidates, pop_once,
}
use matchmaking.Worker.Pop.Occurs.{
  occurs, scored_members, occurs-append, occurs-perm, members-append,
}
use matchmaking.Worker.Pop.Holding.{
  Holds, fewer-Holds, rest-Holds, pop_batch-Holds, uncancel-Holds, script-Holds, repush_group-Holds,
  split_cancelled-occurs, parse_candidates-occurs,
}

-- What a commit leaves to the worker: on a conflict the group is still in flight.
abbrev Leaves : Shard → List String → List String → Commit → Keyspace → Type 0
Leaves shard group rest Commit.committed s = Holds shard rest s
Leaves shard group rest Commit.conflict s = Holds shard (group ++ rest) s
Leaves shard group rest Commit.failed s = Holds shard rest s

-- A buffer comes back, with an error or without, and the store holds its members.
abbrev pub IsCustodian : Shard → Popped → Keyspace → Type 0
IsCustodian shard (returned buffer) s = Holds shard (members buffer) s
IsCustodian shard (Popped.failed buffer) s = Holds shard (members buffer) s
IsCustodian shard panicked s = ⊥
IsCustodian shard out_of_fuel s = ⊥

module _ (R : Redis) (mm : MatchMaker) (J : Json) where
  store-after_commit :
      (m : Match) (o : Option ℕ) (w : World) → (after_commit R mm J m o w).1.store ≡ w.store
  unfolding after_commit announce
  store-after_commit m none w = refl
  store-after_commit m (some result) w = elim (Bool-cases (eqb result 0)) [
    | inl none_yet ↦ rw none_yet refl
    | inr written ↦ elim (Bool-cases mm.has_publisher) [
      | inl has ↦ rw (written, has) (store-publish (match_forming m.id m.player_ids) w)
      | inr silent ↦ rw (written, silent) refl
    ]
  ]

  positive : (n : ℕ) → eqb (suc n) 0 ≡ false
  positive n = ground arith

  -- The part of a commit after its script.
  after_commit-Leaves :
      (m : Match) (group rest : List String) (o : Option ℕ) (w : World)
      → Holds mm.shard rest w.store
      → (o ≡ some 0 → Holds mm.shard (group ++ rest) w.store)
      → let (result, v) = after_commit R mm J m o w in Leaves mm.shard group rest result v.store
  unfolding after_commit
  after_commit-Leaves m group rest o w later back =
      subst (Leaves mm.shard group rest (after_commit R mm J m o w).0)
        (sym (store-after_commit m o w)) (of_reply o back)
    where
      of_reply :
          (o : Option ℕ)
          → (o ≡ some 0 → Holds mm.shard (group ++ rest) w.store)
          → Leaves mm.shard group rest (after_commit R mm J m o w).0 w.store
      of_reply none back = later
      of_reply (some zero) back = back refl
      of_reply (some (suc n)) back = rw (positive n) later

  commit_encoded-Leaves :
      (group : List BufferedEntry) (rest : List String) (m : Match) (at : Time)
      (text : Option String) (w : World)
      → Holds mm.shard (members group ++ rest) w.store
      → let (result, v) = commit_encoded R mm J group m at text w in
        Leaves mm.shard (members group) rest result v.store
  unfolding commit_encoded
  commit_encoded-Leaves group rest m at none w h =
      rest-Holds mm.shard (members group) rest w.store h
  commit_encoded-Leaves group rest m at (some payload) w (d, f) =
      let script =
        commit_match_script R (commit_keys mm.shard m.id) (commit_args group m.id payload at) in
      let (later, back) =
        script-Holds R mm m.id (commit_args group m.id payload at) rest w.store (d, f) in
      elim (call-cases script w) [
        | inl e ↦ rw e (
            after_commit-Leaves m (members group) rest (some (script w.store).0)
              (record w { store = (script w.store).1; calls = suc w.calls }) later back)
        | inr (inl e) ↦ rw e (rest-Holds mm.shard (members group) rest w.store (d, f))
        | inr (inr e) ↦ rw e later
      ]

  commit_match-Leaves :
      (group : List BufferedEntry) (rest : List String) (w : World)
      → Holds mm.shard (members group ++ rest) w.store
      → let (result, v) = commit_match R mm J group w in
        Leaves mm.shard (members group) rest result v.store
  unfolding commit_match next_seq now
  commit_match-Leaves group rest w h =
      let u : World = record w { reads = suc w.reads; match_seq = suc w.match_seq } in
      let m = new_match mm.shard group (w.clock w.reads) (suc w.match_seq) in
      commit_encoded-Leaves group rest m (w.clock w.reads) (J.encode_match m) u h

  after_group-IsCustodian :
      (continue : List BufferedEntry → M Popped) (group remaining : List BufferedEntry)
      (result : Commit) (w : World)
      → Leaves mm.shard (members group) (members remaining) result w.store
      → ((v : World)
          → Holds mm.shard (members remaining) v.store
          → let (p, u) = continue remaining v in IsCustodian mm.shard p u.store)
      → let (p, u) = after_group R mm J continue group remaining result w in
        IsCustodian mm.shard p u.store
  unfolding after_group
  after_group-IsCustodian continue group remaining Commit.committed w h more = more w h
  after_group-IsCustodian continue group remaining Commit.conflict w h more =
      more (repush_group R mm group w).1 (repush_group-Holds R mm group (members remaining) w h)
  after_group-IsCustodian continue group remaining Commit.failed w h more = h

  after_select-IsCustodian :
      (continue : List BufferedEntry → M Popped) (buffer : List BufferedEntry) (t : Time)
      (w : World)
      → 0 < mm.match_size
      → Holds mm.shard (members buffer) w.store
      → ((remaining : List BufferedEntry) (v : World)
          → length remaining < length buffer
          → Holds mm.shard (members remaining) v.store
          → let (p, u) = continue remaining v in IsCustodian mm.shard p u.store)
      → let (p, u) = after_select R mm J continue buffer (select_group buffer mm.match_size t) w in
        IsCustodian mm.shard p u.store
  unfolding after_select
  after_select-IsCustodian continue buffer t w size h more =
      elim (select_group-cases buffer mm.match_size t size) [
        | inl e ↦ rw e h
        | inr (group, remaining, e) ↦
            let (_, shorter, same) = select_group-perm buffer mm.match_size t size e in
            let (result, v) = commit_match R mm J group w in
            let split : Holds mm.shard (members group ++ members remaining) w.store =
              fewer-Holds mm.shard (members group ++ members remaining) w.store
                (λ m.
                  omega (arith, occurs-perm m same, ap (occurs m) (members-append group remaining)))
                h in
            rw e (
              after_group-IsCustodian continue group remaining result v
                (commit_match-Leaves group (members remaining) w split)
                (λ u. more remaining u (omega (arith, shorter))))
      ]

  form_matches-IsCustodian :
      (fuel : ℕ) (buffer : List BufferedEntry) (w : World)
      → 0 < mm.match_size
      → length buffer < fuel
      → Holds mm.shard (members buffer) w.store
      → let (p, v) = form_matches R mm J fuel buffer w in IsCustodian mm.shard p v.store
  unfolding form_matches now
  form_matches-IsCustodian zero buffer w size enough h = absurd (omega arith)
  form_matches-IsCustodian (suc fuel) buffer w size enough h =
      elim (Bool-cases (leb mm.match_size (length buffer))) [
        | inr small ↦ rw small h
        | inl big ↦ rw big (
            after_select-IsCustodian (form_matches R mm J fuel) buffer (w.clock w.reads)
              (record w { reads = suc w.reads }) size h
              (λ remaining v less. form_matches-IsCustodian fuel remaining v size (omega arith)))
      ]

  admit-IsCustodian :
      (buffer cs : List BufferedEntry) (w : World)
      → 0 < mm.match_size
      → Holds mm.shard (members buffer ++ members cs) w.store
      → let (p, v) = admit R mm J buffer cs w in IsCustodian mm.shard p v.store
  unfolding admit query
  admit-IsCustodian buffer cs w size h =
      let ask : Keyspace → List Bool = R.smismember (Keys.cancelled mm.shard) (player_ids cs) in
      let (reply, v) = query ask w in
      let (kept, dropped) = split_cancelled R mm cs (flags_of R mm cs reply) in
      let asked =
        call-keeps (Holds mm.shard (members buffer ++ members cs)) (λ s. (ask s, s)) w h h in
      form_matches-IsCustodian (suc (length (buffer ++ kept))) (buffer ++ kept)
        (uncancel R mm dropped v).1 size (omega arith)
        (uncancel-Holds R mm (members (buffer ++ kept)) dropped v (
          fewer-Holds mm.shard (members (buffer ++ kept)) v.store
            (λ m. omega (
              arith,
              split_cancelled-occurs R mm m cs (flags_of R mm cs reply),
              ap (occurs m) (members-append buffer kept),
              occurs-append m (members buffer) (members kept),
              occurs-append m (members buffer) (members cs),
            ))
            asked))

  with_candidates-IsCustodian :
      (buffer cs : List BufferedEntry) (w : World)
      → 0 < mm.match_size
      → Holds mm.shard (members buffer ++ members cs) w.store
      → let (p, v) = with_candidates R mm J buffer cs w in IsCustodian mm.shard p v.store
  unfolding with_candidates
  with_candidates-IsCustodian buffer [] w size h =
      fewer-Holds mm.shard (members buffer) w.store
        (λ m. omega (arith, occurs-append m (members buffer) [])) h
  with_candidates-IsCustodian buffer (c ∷ cs) w size h = admit-IsCustodian buffer (c ∷ cs) w size h

  -- The entries in flight through one call of popOnce.
  pub pop_once-IsCustodian :
      (buffer : List BufferedEntry) (w : World)
      → 0 < mm.match_size
      → Holds mm.shard (members buffer) w.store
      → let (p, v) = pop_once R mm J buffer w in IsCustodian mm.shard p v.store
  unfolding pop_once
  pop_once-IsCustodian buffer w size h =
      let (zs, v) = pop_batch R mm w in
      with_candidates-IsCustodian buffer (parse_candidates R mm J zs) v size (
        fewer-Holds mm.shard (members buffer ++ members (parse_candidates R mm J zs)) v.store
          (λ m. omega (
            arith,
            parse_candidates-occurs R mm J m zs,
            occurs-append m (members buffer) (members (parse_candidates R mm J zs)),
            occurs-append m (members buffer) (scored_members zs),
          ))
          (pop_batch-Holds R mm (members buffer) w h))
