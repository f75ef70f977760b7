-- ===== src/Matchops.antt =====
-- internal/matchops/ops.go: the two ways out of the forming state.
pub mod Scripts
pub mod Handlers
pub mod Confirmation
pub mod Dissolution
use matchmaking.Shared.{
  ℕ, String, ◌⧺◌, Bool, true, false, Option, none, some, List, [], ◌∷◌, eqb, if◌then◌else◌,
}
use matchmaking.Model.{Match, QueueEntry}
use matchmaking.Json.{Json}
use matchmaking.Redis.{Redis}
use matchmaking.Effects.{
  M, pure, call, query, now, publish, spawn, ◌>>=◌, ◌>>◌, match_dissolved, match_confirmed,
  match_server_ready, mark_match_dissolved, mark_match_confirmed, allocate_server,
}
use matchmaking.Keys
use matchmaking.Queue.{unix_milli}
use Scripts.{Requeue, dissolve_script, confirm_script}

abbrev pub match_ttl : ℕ
match_ttl = 600

module _ (R : Redis) (J : Json) where
  -- A failed read, a missing key and a malformed record all read as no match.
  unfoldable pub match_of_reply : Option (Option String) → Option Match
  match_of_reply (some (some text)) = J.decode_match text
  match_of_reply _ = none

  unfoldable pub read_match : String → M (Option Match)
  unfolding query match_of_reply
  read_match match_id = do
    reply ← query (R.get (Keys.match_key match_id))
    pure (match_of_reply reply)

  -- The arguments for each entry; `none` if one of them cannot be marshalled.
  unfoldable pub requeue_args : List QueueEntry → Option (List Requeue)
  requeue_args [] = some []
  requeue_args (e ∷ es) =
      let rest = requeue_args es in
      elim (J.encode_entry e) [
        | none ↦ none
        | some text ↦ elim rest [
          | none ↦ none
          | some args ↦ some (
              record { player_id = e.player_id; score = unix_milli e.enqueued_at; member = text }
              ∷ args)
        ]
      ]

  -- Persisted in a goroutine of its own, if there is a store.
  unfoldable pub persist_dissolved : Bool → String → M (Unit {0})
  unfolding now spawn
  persist_dissolved false match_id = pure tt
  persist_dissolved true match_id = do at ← now; spawn (mark_match_dissolved match_id at)

  unfoldable pub persist_confirmed : Bool → String → M (Unit {0})
  unfolding now spawn
  persist_confirmed false match_id = pure tt
  persist_confirmed true match_id = do at ← now; spawn (mark_match_confirmed match_id at)

  -- What follows the script; its reply is an error, 0 or 1.
  unfoldable pub after_dissolve : Bool → String → Match → Option ℕ → M (Unit {0})
  unfolding publish persist_dissolved
  after_dissolve has_store match_id match none = pure tt
  after_dissolve has_store match_id match (some ok) = if eqb ok 0 then pure tt else do
    publish (match_dissolved match_id match.player_ids)
    persist_dissolved has_store match_id

  unfoldable pub dissolve_with :
      Bool → String → String → Match → Option (List Requeue) → M (Unit {0})
  unfolding call after_dissolve
  dissolve_with has_store match_id declined match none = pure tt
  dissolve_with has_store match_id declined match (some entries) =
      call (
        dissolve_script R J (Keys.match_status_key match_id) (Keys.match_key match_id)
          (Keys.forming_matches match.shard) (Keys.queue match.shard) (Keys.cancelled match.shard)
          (Keys.in_queue match.shard) match_ttl match_id declined entries)
      >>= after_dissolve has_store match_id match

  unfoldable pub dissolve_found : Bool → String → String → Option Match → M (Unit {0})
  unfolding dissolve_with requeue_args
  dissolve_found has_store match_id declined none = pure tt
  dissolve_found has_store match_id declined (some match) =
      dissolve_with has_store match_id declined match (requeue_args match.entries)

  -- Dissolve
  unfoldable pub dissolve : Bool → String → String → M (Unit {0})
  unfolding read_match dissolve_found
  dissolve has_store match_id declined =
      read_match match_id >>= dissolve_found has_store match_id declined

  unfoldable pub after_confirm : Bool → String → Match → Option ℕ → M (Unit {0})
  unfolding publish persist_confirmed spawn
  after_confirm has_store match_id match none = pure tt
  after_confirm has_store match_id match (some ok) = if eqb ok 0 then pure tt else do
    publish (match_confirmed match_id match.player_ids)
    persist_confirmed has_store match_id
    spawn (allocate_server match_id match.player_ids)

  unfoldable pub confirm_found : Bool → String → Option Match → M (Unit {0})
  unfolding call after_confirm
  confirm_found has_store match_id none = pure tt
  confirm_found has_store match_id (some match) =
      call (
        confirm_script R J (Keys.match_status_key match_id) (Keys.match_key match_id)
          (Keys.forming_matches match.shard) (Keys.in_queue match.shard) match_ttl match_id
          match.player_ids)
      >>= after_confirm has_store match_id match

  -- Confirm
  unfoldable pub confirm : Bool → String → M (Unit {0})
  unfolding read_match confirm_found
  confirm has_store match_id = read_match match_id >>= confirm_found has_store match_id

-- allocateServer, the body of the goroutine.
unfoldable pub run_allocate_server : String → List String → M (Unit {0})
unfolding publish
run_allocate_server match_id player_ids =
    publish (match_server_ready match_id ("game-server-" ⧺ match_id ⧺ ".internal:7777") player_ids)
