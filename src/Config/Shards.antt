-- ===== src/Config/Shards.antt =====
-- parseShards of internal/reconciler/config.go, which reads what Shard.String of
-- internal/model/model.go writes.
use Prim.Native.Char.{Char}
use Prim.Native.String
use text.Mathlib.TextLemmas.{nil-append, cons-append}
use matchmaking.Shared.{
  ℕ, String, ◌⧺◌, ◌≡◌, ◌≢◌, refl, ap, ◌∙◌, Bool, true, not, ◌&&◌, ◌||◌, Option, none, some, List,
  [], ◌∷◌, map, All, arith, str_eq, str_eq-false, if◌then◌else◌,
}
use matchmaking.Shared.Texts
use matchmaking.Shared.Texts.{
  has_code, all_chars, is_space, split, split_n, split_n-cut, trim_space, cut, cut-append,
  split-append, split-lacks, trim_space-plain, all_chars-append,
}
use matchmaking.Model.{Shard}

-- The code points of the separators.
abbrev pub comma : ℕ
comma = 44

abbrev pub slash : ℕ
slash = 47

-- The three parts, if none of them is empty; an entry with other parts is skipped.
unfoldable pub shard_of_parts : List String → Option Shard
shard_of_parts (region ∷ mode ∷ band ∷ []) =
    if str_eq region "" || str_eq mode "" || str_eq band ""
    then none
    else some (record { region = region; mode = mode; rating_band = band })
shard_of_parts _ = none

unfoldable pub parse_entry : String → Option Shard
unfolding split_n trim_space shard_of_parts
parse_entry entry = shard_of_parts (split_n (trim_space entry) slash 3)

-- What append does, if an entry was not skipped.
abbrev pub onto : Option Shard → List Shard → List Shard
onto none shards = shards
onto (some shard) shards = shard ∷ shards

unfoldable pub parse_entries : List String → List Shard
unfolding parse_entry
parse_entries [] = []
parse_entries (entry ∷ entries) = onto (parse_entry entry) (parse_entries entries)

-- parseShards
unfoldable pub parse_shards : String → List Shard
unfolding split parse_entries
parse_shards list = parse_entries (split list comma)

-- Shard.String
unfoldable pub shard_text : Shard → String
shard_text s =
    if str_eq s.rating_band ""
    then s.region ⧺ "/" ⧺ s.mode
    else s.region ⧺ "/" ⧺ s.mode ⧺ "/" ⧺ s.rating_band

-- A character that is no separator and no blank.
abbrev pub is_plain : Char → Bool
is_plain c = not (has_code comma c) && (not (has_code slash c) && not (is_space c))

-- A part that is written and read as it is.
abbrev pub IsPlain : String → Type 0
IsPlain text = (text ≢ "") × (all_chars is_plain text ≡ true)

-- A shard whose three parts are plain.
pub record IsWritable (s : Shard) : Type 0 where
  pub region_plain : IsPlain s.region
  pub mode_plain : IsPlain s.mode
  pub band_plain : IsPlain s.rating_band

lacks_comma :
    (s : String) → all_chars is_plain s ≡ true → all_chars (λ c. not (has_code comma c)) s ≡ true
lacks_comma String.[] h = refl
lacks_comma (String.◌∷◌ c s) h = ground (arith, lacks_comma s)

lacks_slash :
    (s : String) → all_chars is_plain s ≡ true → all_chars (λ c. not (has_code slash c)) s ≡ true
lacks_slash String.[] h = refl
lacks_slash (String.◌∷◌ c s) h = ground (arith, lacks_slash s)

lacks_space :
    (s : String) → all_chars is_plain s ≡ true → all_chars (λ c. not (is_space c)) s ≡ true
lacks_space String.[] h = refl
lacks_space (String.◌∷◌ c s) h = ground (arith, lacks_space s)

abbrev slash_char : Char
slash_char = "/"

abbrev comma_char : Char
comma_char = ","

behind : (c : Char) (s : String) → String.◌++◌ (String.◌∷◌ c String.[]) s ≡ String.◌∷◌ c s
behind c s = cons-append c String.[] s ∙ ap (String.◌∷◌ c) (nil-append s)

abbrev slashed : Shard → String
slashed s = s.region ⧺ String.◌∷◌ slash_char (s.mode ⧺ String.◌∷◌ slash_char s.rating_band)

-- The text of a writable shard, with its separators as characters.
shard_text-eq :
    (s : Shard)
    → IsWritable s
    → shard_text s ≡ s.region ⧺ String.◌∷◌ slash_char (s.mode ⧺ String.◌∷◌ slash_char s.rating_band)
unfolding shard_text
shard_text-eq s w = rw (str_eq-false s.rating_band "" w.band_plain.0) (
    ap (λ t. s.region ⧺ t)
      (behind slash_char (s.mode ⧺ "/" ⧺ s.rating_band)
        ∙ ap (λ t. String.◌∷◌ slash_char (s.mode ⧺ t)) (behind slash_char s.rating_band)))

-- A property of characters that the parts and the slash have.
text_chars :
    (p : Char → Bool) (s : Shard)
    → all_chars p s.region ≡ true
    → all_chars p s.mode ≡ true
    → all_chars p s.rating_band ≡ true
    → p slash_char ≡ true
    → all_chars p (s.region ⧺ String.◌∷◌ slash_char (s.mode ⧺ String.◌∷◌ slash_char s.rating_band))
      ≡ true
text_chars p s region mode band is =
    all_chars-append p s.region _ region (rw is (all_chars-append p s.mode _ mode (rw is band)))

split_n-text :
    (s : Shard)
    → IsWritable s
    → split_n
        (s.region ⧺ String.◌∷◌ slash_char (s.mode ⧺ String.◌∷◌ slash_char s.rating_band))
        slash
        3
      ≡ s.region ∷ s.mode ∷ s.rating_band ∷ []
unfolding split_n
split_n-text s w =
    split_n-cut (s.region ⧺ String.◌∷◌ slash_char (s.mode ⧺ String.◌∷◌ slash_char s.rating_band))
      slash 1 s.region (s.mode ⧺ String.◌∷◌ slash_char s.rating_band)
      (cut-append s.region _ slash slash_char (lacks_slash s.region w.region_plain.1) refl)
    ∙ ap (λ ps. s.region ∷ ps)
        (split_n-cut (s.mode ⧺ String.◌∷◌ slash_char s.rating_band) slash 0 s.mode s.rating_band (
          cut-append s.mode s.rating_band slash slash_char (lacks_slash s.mode w.mode_plain.1)
            refl))

shard_of_parts-parts :
    (s : Shard) → IsWritable s → shard_of_parts (s.region ∷ s.mode ∷ s.rating_band ∷ []) ≡ some s
unfolding shard_of_parts
shard_of_parts-parts s w =
    rw
      (
        str_eq-false s.region "" w.region_plain.0,
        str_eq-false s.mode "" w.mode_plain.0,
        str_eq-false s.rating_band "" w.band_plain.0,
      )
      refl

trimmed : (s : Shard) → IsWritable s → trim_space (slashed s) ≡ slashed s
trimmed s w = trim_space-plain (slashed s) (
    text_chars (λ c. not (is_space c)) s (lacks_space s.region w.region_plain.1)
      (lacks_space s.mode w.mode_plain.1) (lacks_space s.rating_band w.band_plain.1)
      (unfold is_space in refl))

parse_entry-shard_text : (s : Shard) → IsWritable s → parse_entry (shard_text s) ≡ some s
unfolding parse_entry
parse_entry-shard_text s w =
    ap (λ (t : String). shard_of_parts (split_n (trim_space t) slash 3)) (shard_text-eq s w)
    ∙ ap (λ (t : String). shard_of_parts (split_n t slash 3)) (trimmed s w)
    ∙ ap shard_of_parts (split_n-text s w)
    ∙ shard_of_parts-parts s w

-- The text of a writable shard has no comma.
shard_text-lacks :
    (s : Shard) → IsWritable s → all_chars (λ c. not (has_code comma c)) (shard_text s) ≡ true
shard_text-lacks s w = rw (shard_text-eq s w) (
    text_chars (λ c. not (has_code comma c)) s (lacks_comma s.region w.region_plain.1)
      (lacks_comma s.mode w.mode_plain.1) (lacks_comma s.rating_band w.band_plain.1) refl)

parse_entries-cons :
    (s : Shard) (texts : List String)
    → IsWritable s
    → parse_entries (shard_text s ∷ texts) ≡ s ∷ parse_entries texts
unfolding parse_entries
parse_entries-cons s texts w =
    ap (λ (o : Option Shard). onto o (parse_entries texts)) (parse_entry-shard_text s w)

split-joined :
    (p : String) (rest : String)
    → all_chars (λ c. not (has_code comma c)) p ≡ true
    → split (p ⧺ "," ⧺ rest) comma ≡ p ∷ split rest comma
split-joined p rest lacks =
    ap (λ t. split (p ⧺ t) comma) (behind comma_char rest)
    ∙ split-append p rest comma comma_char lacks refl

-- Shards whose parts are not empty and hold no comma, slash or blank, written as Shard.String
-- writes them and joined by commas, are read back by parseShards, all of them and in their order.
pub parse_shards-join :
    (shards : List Shard)
    → All IsWritable shards
    → parse_shards (Texts.join (map shard_text shards) ",") ≡ shards
unfolding parse_shards Texts.join parse_entries split parse_entry split_n trim_space shard_of_parts
parse_shards-join [] ws = refl
parse_shards-join (s ∷ []) (w, _) =
    ap parse_entries (split-lacks (shard_text s) comma (shard_text-lacks s w))
    ∙ parse_entries-cons s [] w
parse_shards-join (s ∷ t ∷ ss) (w, ws) =
    ap parse_entries (split-joined (shard_text s) _ (shard_text-lacks s w))
    ∙ parse_entries-cons s (split (Texts.join (shard_text t ∷ map shard_text ss) ",") comma) w
    ∙ ap (λ l. s ∷ l) (parse_shards-join (t ∷ ss) ws)
