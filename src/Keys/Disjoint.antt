-- ===== src/Keys/Disjoint.antt =====
-- Keys that one script or one pipeline uses side by side are different texts.
use Prim.Native.String.{count}
use text.Mathlib.TextLemmas.{append_cancel_left, append_assoc, append_inj, length-append}
use matchmaking.Shared.{sym, String, ◌⧺◌, ◌≡◌, ◌≢◌, refl, ap, ◌∙◌, arith, eq_iff}
use matchmaking.Model.{Shard}
use matchmaking.Keys.{
  hash_tag, queue, match_key, match_status_key, match_accepted, match_declined, cancelled,
  forming_matches, shard_lock, processing, in_queue, pending_match_event,
}

-- Texts that begin differently are different.
prefix_ne : (p q r x y : String) → count p ≡ count q → p ≢ q → p ⧺ x ≢ (q ⧺ r) ⧺ y
prefix_ne p q r x y h d e = d (append_inj (e ∙ append_assoc q r y) h).0

module _ (s : Shard) where
  pub cancelled-ne-in_queue : cancelled s ≢ in_queue s
  unfolding cancelled in_queue
  cancelled-ne-in_queue e =
      ground (arith, eq_iff ":cancelled" ":inqueue", append_cancel_left (hash_tag s) _ _ e)

  pub queue-ne-processing : queue s ≢ processing s
  unfolding queue processing
  queue-ne-processing e =
      prefix_ne ":q:" ":pr" "ocessing:" s.rating_band s.rating_band refl
        (ground (arith, eq_iff ":q:" ":pr")) (append_cancel_left (hash_tag s) _ _ e)

  pub forming-ne-processing : forming_matches s ≢ processing s
  unfolding forming_matches processing
  forming-ne-processing e =
      prefix_ne ":forming:" ":processi" "ng:" s.rating_band s.rating_band refl
        (ground (arith, eq_iff ":forming:" ":processi")) (append_cancel_left (hash_tag s) _ _ e)

  pub queue-ne-forming : queue s ≢ forming_matches s
  unfolding queue forming_matches
  queue-ne-forming e =
      prefix_ne ":q:" ":fo" "rming:" s.rating_band s.rating_band refl
        (ground (arith, eq_iff ":q:" ":fo")) (append_cancel_left (hash_tag s) _ _ e)

  pub processing-ne-shard_lock : processing s ≢ shard_lock s
  unfolding shard_lock processing
  processing-ne-shard_lock e =
      prefix_ne ":lock:" ":proce" "ssing:" s.rating_band s.rating_band refl
        (ground (arith, eq_iff ":lock:" ":proce")) (sym (append_cancel_left (hash_tag s) _ _ e))

  pub processing-ne-cancelled : processing s ≢ cancelled s
  unfolding cancelled processing
  processing-ne-cancelled e =
      prefix_ne ":cancelled" ":processin" "g:" "" s.rating_band refl
        (ground (arith, eq_iff ":cancelled" ":processin"))
        (sym (append_cancel_left (hash_tag s) _ _ e))

module _ (id : String) where
  pub match_key-ne-status : match_key id ≢ match_status_key id
  unfolding match_key match_status_key
  match_key-ne-status e = omega (
    arith,
    ap count (append_cancel_left "match:" id (id ⧺ ":status") e),
    length-append id ":status",
  )

  pub accepted-ne-declined : match_accepted id ≢ match_declined id
  unfolding match_accepted match_declined
  accepted-ne-declined e = ground (
    arith,
    eq_iff ":accepted" ":declined",
    append_cancel_left id _ _ (append_cancel_left "match:" _ _ e),
  )

pub pending-ne-status :
    (player_id id : String) → pending_match_event player_id ≢ match_status_key id
unfolding pending_match_event match_status_key
pending-ne-status player_id id e =
    prefix_ne "match:" "pendin" "g:match:" (id ⧺ ":status") player_id refl
      (ground (arith, eq_iff "match:" "pendin")) (sym e)

-- A key of a match does not begin as a key of a shard does.
match-ne-tag : (t u : String) (s : Shard) → "match:" ⧺ t ≢ hash_tag s ⧺ u
unfolding hash_tag
match-ne-tag t u s e =
    prefix_ne "m" "{" (s.region ⧺ "/" ⧺ s.mode ⧺ "}") ("atch:" ⧺ t) u refl
      (ground (arith, eq_iff "m" "{")) (sym (append_assoc "m" "atch:" t) ∙ e)

module _ (id : String) (s : Shard) where
  pub accepted-ne-in_queue : match_accepted id ≢ in_queue s
  unfolding match_accepted in_queue
  accepted-ne-in_queue = match-ne-tag (id ⧺ ":accepted") ":inqueue" s

  pub declined-ne-in_queue : match_declined id ≢ in_queue s
  unfolding match_declined in_queue
  declined-ne-in_queue = match-ne-tag (id ⧺ ":declined") ":inqueue" s
