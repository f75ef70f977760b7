-- ===== src/Redis/Memory.antt =====
-- A server in memory, which has every documented effect of `Redis`.
use matchmaking.Shared.{
  ◌-◌, refl, true, false, none, some, [], ◌∷◌, ◌++◌, length, take, drop, keep, if◌then◌else◌,
}
use matchmaking.Redis.{
  Redis, Keyspace, put, contains, contains_each, with_members, without_members, with_scored,
  without_scored, in_score_range, key_exists, ttl_unless_empty,
}

abbrev pub empty : Keyspace
empty = record {
  texts = λ k. none;
  sets = λ k. [];
  zsets = λ k. [];
  streams = λ k. [];
  ttls = λ k. none;
}

abbrev pub memory : Redis
memory = record {
  get = λ k s. s.texts k;
  set_ex = λ k v t s. record s { texts = put s.texts k (some v); ttls = put s.ttls k (some t) };
  set_nx = λ k v t s. elim (s.texts k) [
    | some _ ↦ (false, s)
    | none ↦ (true, record s { texts = put s.texts k (some v); ttls = put s.ttls k (some t) })
  ];
  del = λ k s. record {
    texts = put s.texts k none;
    sets = put s.sets k [];
    zsets = put s.zsets k [];
    streams = put s.streams k [];
    ttls = put s.ttls k none;
  };
  expire = λ k t s. if key_exists k s then record s { ttls = put s.ttls k (some t) } else s;
  sadd = λ k xs s. (
    length (with_members xs (s.sets k)) - length (s.sets k),
    record s { sets = put s.sets k (with_members xs (s.sets k)) },
  );
  srem = λ k xs s. record s {
    sets = put s.sets k (without_members xs (s.sets k));
    ttls = put s.ttls k (ttl_unless_empty (without_members xs (s.sets k)) (s.ttls k));
  };
  sismember = λ k x s. contains x (s.sets k);
  smismember = λ k xs s. contains_each xs (s.sets k);
  scard = λ k s. length (s.sets k);
  zadd = λ k score m s. record s {
    zsets = put s.zsets k (with_scored (record { member = m; score = score }) (s.zsets k));
  };
  zrem = λ k xs s. record s {
    zsets = put s.zsets k (without_scored xs (s.zsets k));
    ttls = put s.ttls k (ttl_unless_empty (without_scored xs (s.zsets k)) (s.ttls k));
  };
  zpopmin = λ k n s. (
    take n (s.zsets k),
    record s {
      zsets = put s.zsets k (drop n (s.zsets k));
      ttls = put s.ttls k (ttl_unless_empty (drop n (s.zsets k)) (s.ttls k));
    },
  );
  zrange = λ k s. s.zsets k;
  zrange_by_score = λ k low high s. keep (in_score_range low high) (s.zsets k);
  trim = λ n es. es;
  xadd = λ k n e s. record s { streams = put s.streams k (s.streams k ++ e ∷ []) };
  get_lem = λ k s. refl;
  set_ex_lem = λ k v t s. refl;
  set_nx_lem = λ k v t s. refl;
  del_lem = λ k s. refl;
  expire_lem = λ k t s. refl;
  sadd_lem = λ k xs s. refl;
  srem_lem = λ k xs s. refl;
  sismember_lem = λ k x s. refl;
  smismember_lem = λ k xs s. refl;
  scard_lem = λ k s. refl;
  zadd_lem = λ k score m s. refl;
  zrem_lem = λ k xs s. refl;
  zpopmin_lem = λ k n s. refl;
  zrange_lem = λ k s. refl;
  zrange_by_score_lem = λ k low high s. refl;
  trim_lem = λ n es h. refl;
  xadd_lem = λ k n e s. refl;
}
