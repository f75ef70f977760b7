-- ===== src/Config/Required.antt =====
-- Which environments LoadConfig accepts, and what it reports of the others: internal/api/config.go,
-- internal/worker/config.go and internal/reconciler/config.go.
use mathlib.Core.List.{append_assoc, append-nil}
use matchmaking.Shared.{
  String, ◌⧺◌, ◌≡◌, refl, ap, ◌∙◌, sym, List, [], ◌∷◌, ◌++◌, str_eq, Bool-cases, if◌then◌else◌, inl,
  inr,
}
use matchmaking.Shared.Texts
use matchmaking.Config.{
  Env, Config, loaded, invalid, env_or, required, unless_missing, WorkerConfig, ApiConfig,
  ReconcilerConfig, conn_str, read_worker, read_api, read_reconciler, load_worker, load_api,
  load_reconciler,
}
use matchmaking.Config.Shards.{parse_shards}

-- The variables among these that are not set or empty, in their order.
unfoldable pub absent : Env → List String → List String
absent env [] = []
absent env (key ∷ keys) =
    let rest = absent env keys in if str_eq (env key) "" then key ∷ rest else rest

-- The configuration if every one of these variables is set, or else one error that names those
-- that are not.
abbrev pub expected {ℓ} : {A : Type ℓ} → A → List String → Config A
expected config [] = loaded config
expected config (key ∷ keys) =
    invalid ("missing required env vars: " ⧺ Texts.join (key ∷ keys) ", ")

abbrev pub worker_keys : List String
worker_keys =
    "DB_HOST" ∷ "DB_USER" ∷ "DB_PASSWORD" ∷ "DB_NAME" ∷ "SHARD_REGION" ∷ "SHARD_MODE"
    ∷ "SHARD_RATINGBAND" ∷ []

abbrev pub api_keys : List String
api_keys = "DB_HOST" ∷ "DB_USER" ∷ "DB_PASSWORD" ∷ "DB_NAME" ∷ []

-- What is read from an environment that has every required variable.
abbrev pub worker_config : Env → WorkerConfig
worker_config env = record {
  redis_addr = env_or env "REDIS_ADDR" "localhost:6379";
  db_conn_str =
      conn_str (env "DB_USER") (env "DB_PASSWORD") (env "DB_HOST") (env_or env "DB_PORT" "5432")
        (env "DB_NAME");
  shard_region = env "SHARD_REGION";
  shard_mode = env "SHARD_MODE";
  shard_rating_band = env "SHARD_RATINGBAND";
}

abbrev pub api_config : Env → ApiConfig
api_config env = record {
  redis_addr = env_or env "REDIS_ADDR" "localhost:6379";
  db_conn_str =
      conn_str (env "DB_USER") (env "DB_PASSWORD") (env "DB_HOST") (env_or env "DB_PORT" "5432")
        (env "DB_NAME")
      ⧺ "?pool_max_conns="
      ⧺ env_or env "DB_POOL_MAX_CONNS" "50";
  http_addr = env_or env "HTTP_ADDR" ":8080";
}

abbrev pub reconciler_config : Env → ReconcilerConfig
reconciler_config env = record {
  redis_addr = env_or env "REDIS_ADDR" "localhost:6379";
  shards = parse_shards (env "SHARD_LIST");
}

abbrev pub reconciler_keys : List String
reconciler_keys = "SHARD_LIST" ∷ []

-- The missing variables after these have been required one after the other.
abbrev collect : Env → List String → List String → List String
collect env missing [] = missing
collect env missing (key ∷ keys) = collect env (required env key missing).1 keys

collect-absent :
    (env : Env) (missing keys : List String) → collect env missing keys ≡ missing ++ absent env keys
unfolding required absent
collect-absent env missing [] = sym (append-nil missing)
collect-absent env missing (key ∷ keys) = elim (Bool-cases (str_eq (env key) "")) [
  | inl e ↦
      rw (e, collect-absent env (missing ++ key ∷ []) keys)
        (append_assoc missing (key ∷ []) (absent env keys))
  | inr e ↦ rw (e, collect-absent env missing keys)
]

expected-unless_missing :
    {A : Type 0} (config : A) (missing : List String)
    → unless_missing (config, missing) ≡ expected config missing
unfolding unless_missing
expected-unless_missing config [] = refl
expected-unless_missing config (key ∷ keys) = refl

-- The worker, the API and the reconciler get their configuration exactly when each variable that
-- they require is set to a text that is not empty; otherwise LoadConfig reports one error, which
-- names all the variables that are missing, in their order, and no other.
pub load-Expected :
    (env : Env)
    → (load_worker env ≡ expected (worker_config env) (absent env worker_keys))
      × (load_api env ≡ expected (api_config env) (absent env api_keys))
      × (load_reconciler env ≡ expected (reconciler_config env) (absent env reconciler_keys))
unfolding load_worker read_worker load_api read_api load_reconciler read_reconciler required
load-Expected env = (
  ap (λ (m : List String). unless_missing (worker_config env, m))
        (collect-absent env [] worker_keys)
      ∙ expected-unless_missing (worker_config env) (absent env worker_keys),
  ap (λ (m : List String). unless_missing (api_config env, m)) (collect-absent env [] api_keys)
      ∙ expected-unless_missing (api_config env) (absent env api_keys),
  ap (λ (m : List String). unless_missing (reconciler_config env, m))
        (collect-absent env [] reconciler_keys)
      ∙ expected-unless_missing (reconciler_config env) (absent env reconciler_keys),
)
