-- ===== src/Pg/Conn.antt =====
-- pg/conn.go: connection urls. `parse_url` is `pgx.ParseConfig`.
use pg_snapshot.Base.{ℕ, ◌++◌, ◌⊎◌, inl, inr, is_nil, if◌then◌else◌}
use pg_snapshot.Base.Int.{ℤ, pos, ltb_ℤ, add64}
use pg_snapshot.Base.Bytes.{Bytes, codes, itoa}

-- The fields of a parsed url that are read.
pub record ConnConfig : Type 0 where
  pub user : Bytes
  pub password : Bytes
  pub host : Bytes
  pub port : ℕ
  pub database : Bytes

-- The number of connections of a pool: one more than the workers, of which there is at least one.
unfoldable pub max_conns : ℤ → ℤ
unfolding add64
max_conns workers = add64 (if ltb_ℤ workers (pos 1) then pos 1 else workers) (pos 1)

abbrev credentials : ConnConfig → Bytes
credentials cfg = if is_nil cfg.password then cfg.user else cfg.user ++ (codes ":" ++ cfg.password)

unfoldable pub url_of : ConnConfig → Bytes → Bytes
unfolding itoa
url_of cfg database =
    codes "postgres://"
    ++ (credentials cfg
        ++ (codes "@" ++ (cfg.host ++ (codes ":" ++ (itoa cfg.port ++ (codes "/" ++ database))))))

module _ (parse_url : Bytes → Bytes ⊎ ConnConfig) where
  unfoldable pub with_database : Bytes → Bytes → Bytes ⊎ Bytes
  unfolding url_of
  with_database url database = elim (parse_url url) [
    | inl e ↦ inl e
    | inr cfg ↦ inr (url_of cfg database)
  ]

  unfoldable pub database_of : Bytes → Bytes ⊎ Bytes
  database_of url = elim (parse_url url) [ inl e ↦ inl e | inr cfg ↦ inr cfg.database ]
