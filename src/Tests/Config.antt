-- ===== src/Tests/Config.antt =====
-- Environments and lists of shards.
use matchmaking.Shared.{◌≡◌, refl, [], ◌∷◌, str_eq, if◌then◌else◌}
use matchmaking.Shared.Texts
use matchmaking.Model.{Shard}
use matchmaking.Config.{Env, loaded, invalid, load_worker, load_api, load_reconciler}
use matchmaking.Config.Required.{absent, load-Expected, api_config, reconciler_config}
use matchmaking.Config.Shards.{parse_shards, shard_text, IsWritable, parse_shards-join}

-- An environment for the API and the reconciler, but not for a worker.
abbrev sample : Env
sample key =
    if str_eq key "DB_HOST"
    then "db"
    else if str_eq key "DB_USER"
    then "match"
    else if str_eq key "DB_PASSWORD"
    then "secret"
    else if str_eq key "DB_NAME"
    then "matches"
    else if str_eq key "SHARD_LIST"
    then "eu/ranked/1400-1600"
    else if str_eq key "SHARD_MODE"
    then "ranked"
    else ""

load-Expected_example :
    (load_worker sample ≡ invalid "missing required env vars: SHARD_REGION, SHARD_RATINGBAND")
    × (load_api sample ≡ loaded (api_config sample))
    × (load_reconciler sample ≡ loaded (reconciler_config sample))
unfolding absent Texts.join
load-Expected_example = load-Expected sample

abbrev eu : Shard
eu = record { region = "eu"; mode = "ranked"; rating_band = "1400-1600" }

abbrev na : Shard
na = record { region = "na"; mode = "ranked"; rating_band = "2200-2400" }

eu-IsWritable : IsWritable eu
unfolding Texts.is_space
eu-IsWritable = record {
  region_plain = (λ e. cc, refl);
  mode_plain = (λ e. cc, refl);
  band_plain = (λ e. cc, refl);
}

na-IsWritable : IsWritable na
unfolding Texts.is_space
na-IsWritable = record {
  region_plain = (λ e. cc, refl);
  mode_plain = (λ e. cc, refl);
  band_plain = (λ e. cc, refl);
}

parse_shards-join_example : parse_shards "eu/ranked/1400-1600,na/ranked/2200-2400" ≡ eu ∷ na ∷ []
unfolding shard_text Texts.join
parse_shards-join_example = parse_shards-join (eu ∷ na ∷ []) (eu-IsWritable, (na-IsWritable, tt))

-- Entries with blanks around them are read, and those with other parts are skipped.
parse_shards_skips :
    parse_shards " eu/ranked/1400-1600 ,eu/ranked,eu//1400-1600,na/ranked/2200-2400" ≡ eu ∷ na ∷ []
unfolding parse_shards
parse_shards_skips = refl
