-- ===== src/Tests/Codec.antt =====
-- Two players, their match, and an encoding that knows these: every law of `Json` can be met.
use Prim.Native.String.{[], ◌∷◌}
use text.Mathlib.TextLemmas.{cons-ne-nil}
use mathlib.Core.List.{List}
use matchmaking.Shared.{
  String, ◌≡◌, refl, Bool, true, false, ◌&&◌, Option, none, some, arith, eqb, str_eq, eq_iff,
  if◌then◌else◌,
}
use matchmaking.Shared.Int.{ℤ, pos, negsuc}
use matchmaking.Model.{Shard, QueueEntry, Match}
use matchmaking.Json.{Json}

abbrev pub player : QueueEntry
player = record { player_id = "7"; rating = pos 1250; enqueued_at = 5000000000 }

abbrev pub rival : QueueEntry
rival = record { player_id = "8"; rating = pos 1280; enqueued_at = 6000000000 }

abbrev pub shard : Shard
shard = record { region = "EU"; mode = "ranked"; rating_band = "1000-1300" }

abbrev pub formed : Match
formed = record {
  id = "{EU/ranked}:1000-1300:8000:1";
  shard = shard;
  player_ids = List.◌∷◌ "7" (List.◌∷◌ "8" List.[]);
  entries = List.◌∷◌ player (List.◌∷◌ rival List.[]);
  status = "forming";
  formed_at = 8000000000;
}

abbrev same_int : ℤ → ℤ → Bool
same_int (pos a) (pos b) = eqb a b
same_int (negsuc a) (negsuc b) = eqb a b
same_int _ _ = false

same_int-eq : (a b : ℤ) → same_int a b ≡ true → a ≡ b
same_int-eq (pos a) (pos b) h = ground arith
same_int-eq (negsuc a) (negsuc b) h = ground arith
same_int-eq (pos a) (negsuc b) h = ground arith
same_int-eq (negsuc a) (pos b) h = ground arith

unfoldable pub same_entry : QueueEntry → QueueEntry → Bool
same_entry a b =
    str_eq a.player_id b.player_id && same_int a.rating b.rating && eqb a.enqueued_at b.enqueued_at

same_entry-eq : (a b : QueueEntry) → same_entry a b ≡ true → a ≡ b
unfolding same_entry
same_entry-eq a b h = ground (arith, eq_iff a.player_id b.player_id, same_int-eq a.rating b.rating)

abbrev same_list {ℓ} : {A : Type ℓ} → (A → A → Bool) → List A → List A → Bool
same_list same List.[] List.[] = true
same_list same (List.◌∷◌ a xs) (List.◌∷◌ b ys) = same a b && same_list same xs ys
same_list same _ _ = false

same_list-eq {ℓ} :
    {A : Type ℓ} (same : A → A → Bool)
    → ((a b : A) → same a b ≡ true → a ≡ b)
    → (xs ys : List A) → same_list same xs ys ≡ true
    → xs ≡ ys
same_list-eq same sound List.[] List.[] h = refl
same_list-eq same sound (List.◌∷◌ a xs) (List.◌∷◌ b ys) h =
    ground (arith, sound a b, same_list-eq same sound xs ys)
same_list-eq same sound List.[] (List.◌∷◌ b ys) h = ground arith
same_list-eq same sound (List.◌∷◌ a xs) List.[] h = ground arith

str_eq-eq : (s t : String) → str_eq s t ≡ true → s ≡ t
str_eq-eq s t = (eq_iff s t).0

-- The match `formed`, but for the status.
unfoldable pub same_match : Match → Bool
same_match m =
    str_eq m.id formed.id
    && str_eq m.shard.region shard.region
    && str_eq m.shard.mode shard.mode
    && str_eq m.shard.rating_band shard.rating_band
    && same_list str_eq m.player_ids formed.player_ids
    && same_list same_entry m.entries formed.entries
    && eqb m.formed_at formed.formed_at

same_match-eq : (m : Match) → same_match m ≡ true → m ≡ record formed { status = m.status }
unfolding same_match
same_match-eq m h = ground (
  arith,
  eq_iff m.id formed.id,
  eq_iff m.shard.region shard.region,
  eq_iff m.shard.mode shard.mode,
  eq_iff m.shard.rating_band shard.rating_band,
  same_list-eq str_eq str_eq-eq m.player_ids formed.player_ids,
  same_list-eq same_entry same_entry-eq m.entries formed.entries,
)

-- A player is written by the player's id, and the match by "m" and its status.
abbrev encode_entry : QueueEntry → Option String
encode_entry e =
    if same_entry e player then some "7" else if same_entry e rival then some "8" else none

abbrev decode_entry : String → Option QueueEntry
decode_entry t = if str_eq t "7" then some player else if str_eq t "8" then some rival else none

abbrev encode_match : Match → Option String
encode_match m = if same_match m then some ("m" ∷ m.status) else none

abbrev decode_match : String → Option Match
decode_match [] = none
decode_match (c ∷ rest) = some (record formed { status = rest })

abbrev with_status : String → String → String
with_status status [] = []
with_status status (c ∷ rest) = c ∷ status

pub decode-encode_entry_lem :
    (e : QueueEntry) (text : String) → encode_entry e ≡ some text → decode_entry text ≡ some e
decode-encode_entry_lem e text h = ground (
  arith,
  same_entry-eq e player,
  same_entry-eq e rival,
  eq_iff text "7",
  eq_iff text "8",
  eq_iff "7" "8",
)

pub decode-encode_match_lem :
    (m : Match) (text : String) → encode_match m ≡ some text → decode_match text ≡ some m
decode-encode_match_lem m [] h = ground (arith, cons-ne-nil "m" m.status)
decode-encode_match_lem m (c ∷ rest) h = ground (arith, same_match-eq m)

pub decode-with_status_lem :
    (m : Match) (text status : String)
    → decode_match text ≡ some m
    → decode_match (with_status status text) ≡ some (record m { status = status })
decode-with_status_lem m [] status h = ground arith
decode-with_status_lem m (c ∷ rest) status h = ground arith

abbrev pub codec : Json
codec = record {
  encode_entry = encode_entry;
  decode_entry = decode_entry;
  encode_match = encode_match;
  decode_match = decode_match;
  with_status = with_status;
  decode-encode_entry = decode-encode_entry_lem;
  decode-encode_match = decode-encode_match_lem;
  decode-with_status = λ m text status h _ _. decode-with_status_lem m text status h;
}

pub encode_player : codec.encode_entry player ≡ some "7"
unfolding same_entry
encode_player = refl
