-- ===== src/Catalog.antt =====
-- catalog/types.go: tables and columns as the catalogs describe them.
use pg_snapshot.Base.{Bool, List, ◌++◌, ◌||◌}
use pg_snapshot.Base.Int.{ℤ}
use pg_snapshot.Base.Bytes.{Bytes, codes, ◌=?◌}

abbrev pub RelKind : Type 0
RelKind = Bytes

abbrev pub rel_kind_table : RelKind
rel_kind_table = codes "r"

abbrev pub rel_kind_partitioned : RelKind
rel_kind_partitioned = codes "p"

pub record Column : Type 0 where
  pub name : Bytes
  pub type_name : Bytes
  pub base_type : Bytes
  pub max_len : ℤ
  pub generated : Bool
  pub identity : Bool
  pub not_null : Bool

pub record Table : Type 0 where
  pub schema : Bytes
  pub name : Bytes
  pub kind : RelKind
  pub owner : Bytes
  pub parent : Bytes
  pub row_security : Bool
  pub force_row_security : Bool
  pub columns : List Column

-- `Qualified` of a table, and of every other pair of a schema and a name.
unfoldable pub qualify : Bytes → Bytes → Bytes
qualify schema name = schema ++ (codes "." ++ name)

abbrev pub qualified : Table → Bytes
unfolding qualify
qualified t = qualify t.schema t.name

unfoldable pub is_textual : Column → Bool
unfolding ◌=?◌
is_textual c =
    c.base_type =? codes "text"
    || c.base_type =? codes "character varying"
    || c.base_type =? codes "character"
    || c.base_type =? codes "citext"
    || c.base_type =? codes "name"
