-- ===== src/Json.antt =====
-- Go's encoding/json on the service's records, and cjson as the scripts use it: parameters of the
-- model with the documented round trips.
use matchmaking.Shared.{String, ◌≡◌, ◌≢◌, Option, some, []}
use matchmaking.Model.{QueueEntry, Match}

pub record Json : Type 0 where
  -- Marshal fails on a time past the year 9999.
  pub encode_entry : QueueEntry → Option String
  pub decode_entry : String → Option QueueEntry
  pub encode_match : Match → Option String
  pub decode_match : String → Option Match
  -- cjson.decode, m["status"] = s, cjson.encode
  pub with_status : String → String → String
  pub decode-encode_entry :
      (e : QueueEntry) (text : String) → encode_entry e ≡ some text → decode_entry text ≡ some e
  pub decode-encode_match :
      (m : Match) (text : String) → encode_match m ≡ some text → decode_match text ≡ some m
  -- cjson writes an empty array as an object, so the lists must not be empty.
  pub decode-with_status :
      (m : Match) (text status : String)
      → decode_match text ≡ some m
      → m.player_ids ≢ []
      → m.entries ≢ []
      → decode_match (with_status status text) ≡ some (record m { status = status })
