-- ===== src/Tools/Introspection/Queries.antt =====
-- tools/introspection.py: the catalogue queries, in the order in which a tool asks them. Those that
-- end in `_of` are about one table or schema.
use mcp_postgres.Prelude.{[], ◌∷◌}
use mcp_postgres.Db.{Statement, verbatim}

abbrev pub database_stmt : Statement
database_stmt = verbatim "SELECT current_database()" ∷ []

abbrev pub relations_stmt : Statement
relations_stmt =
    verbatim "SELECT n.nspname AS schema, c.relname AS name, "
    ∷ verbatim "       CASE c.relkind WHEN 'r' THEN 'table' WHEN 'p' THEN 'partitioned table' "
    ∷ verbatim "            WHEN 'v' THEN 'view' WHEN 'm' THEN 'materialized view' "
    ∷ verbatim "            WHEN 'f' THEN 'foreign table' END AS kind "
    ∷ verbatim "FROM pg_class c JOIN pg_namespace n ON n.oid = c.relnamespace "
    ∷ verbatim "WHERE c.relkind IN ('r', 'p', 'v', 'm', 'f') "
    ∷ verbatim "  AND n.nspname NOT LIKE 'pg_%' AND n.nspname <> 'information_schema' "
    ∷ verbatim "ORDER BY n.nspname, c.relname"
    ∷ []

abbrev pub columns_stmt : Statement
columns_stmt =
    verbatim "SELECT table_schema, table_name, column_name, data_type, is_nullable, column_default "
    ∷ verbatim "FROM information_schema.columns "
    ∷ verbatim "WHERE table_schema NOT LIKE 'pg_%' AND table_schema <> 'information_schema' "
    ∷ verbatim "ORDER BY table_schema, table_name, ordinal_position"
    ∷ []

abbrev pub primary_keys_stmt : Statement
primary_keys_stmt =
    verbatim "SELECT tc.table_schema, tc.table_name, kcu.column_name "
    ∷ verbatim "FROM information_schema.table_constraints tc "
    ∷ verbatim "JOIN information_schema.key_column_usage kcu "
    ∷ verbatim
        "  ON kcu.constraint_name = tc.constraint_name AND kcu.table_schema = tc.table_schema "
    ∷ verbatim "WHERE tc.constraint_type = 'PRIMARY KEY' "
    ∷ verbatim "  AND tc.table_schema NOT LIKE 'pg_%' AND tc.table_schema <> 'information_schema' "
    ∷ verbatim "ORDER BY tc.table_schema, tc.table_name, kcu.ordinal_position"
    ∷ []

abbrev pub foreign_keys_stmt : Statement
foreign_keys_stmt =
    verbatim "SELECT n.nspname AS schema, t.relname AS table, "
    ∷ verbatim
        "       ARRAY(SELECT att.attname FROM unnest(con.conkey) WITH ORDINALITY AS k(attnum, ord) "
    ∷ verbatim
        "             JOIN pg_attribute att ON att.attrelid = con.conrelid AND att.attnum = k.attnum "
    ∷ verbatim "             ORDER BY k.ord) AS columns, "
    ∷ verbatim "       fn.nspname AS foreign_schema, ft.relname AS foreign_table, "
    ∷ verbatim
        "       ARRAY(SELECT att.attname FROM unnest(con.confkey) WITH ORDINALITY AS k(attnum, ord) "
    ∷ verbatim
        "             JOIN pg_attribute att ON att.attrelid = con.confrelid AND att.attnum = k.attnum "
    ∷ verbatim "             ORDER BY k.ord) AS foreign_columns "
    ∷ verbatim "FROM pg_constraint con "
    ∷ verbatim "JOIN pg_class t ON t.oid = con.conrelid "
    ∷ verbatim "JOIN pg_namespace n ON n.oid = t.relnamespace "
    ∷ verbatim "JOIN pg_class ft ON ft.oid = con.confrelid "
    ∷ verbatim "JOIN pg_namespace fn ON fn.oid = ft.relnamespace "
    ∷ verbatim "WHERE con.contype = 'f' "
    ∷ verbatim "  AND n.nspname NOT LIKE 'pg_%' AND n.nspname <> 'information_schema' "
    ∷ verbatim "ORDER BY n.nspname, t.relname, con.conname"
    ∷ []

abbrev pub enums_stmt : Statement
enums_stmt =
    verbatim "SELECT n.nspname AS schema, ty.typname AS name, "
    ∷ verbatim "       ARRAY(SELECT e.enumlabel FROM pg_enum e "
    ∷ verbatim "             WHERE e.enumtypid = ty.oid ORDER BY e.enumsortorder) AS labels "
    ∷ verbatim "FROM pg_type ty JOIN pg_namespace n ON n.oid = ty.typnamespace "
    ∷ verbatim "WHERE ty.typtype = 'e' "
    ∷ verbatim "  AND n.nspname NOT LIKE 'pg_%' AND n.nspname <> 'information_schema' "
    ∷ verbatim "ORDER BY n.nspname, ty.typname"
    ∷ []

abbrev pub health_stmt : Statement
health_stmt = verbatim "SELECT version()" ∷ []

abbrev pub databases_stmt : Statement
databases_stmt =
    verbatim "SELECT datname, pg_get_userbyid(datdba) AS owner, "
    ∷ verbatim "pg_encoding_to_char(encoding) AS encoding "
    ∷ verbatim "FROM pg_database WHERE datistemplate = false ORDER BY datname"
    ∷ []

abbrev pub schemas_stmt : Statement
schemas_stmt =
    verbatim "SELECT schema_name FROM information_schema.schemata "
    ∷ verbatim "WHERE schema_name NOT LIKE 'pg_%' AND schema_name <> 'information_schema' "
    ∷ verbatim "ORDER BY schema_name"
    ∷ []

abbrev pub tables_of_stmt : Statement
tables_of_stmt =
    verbatim "SELECT table_name, table_type FROM information_schema.tables "
    ∷ verbatim "WHERE table_schema = %s ORDER BY table_name"
    ∷ []

abbrev pub relation_stmt : Statement
relation_stmt =
    verbatim "SELECT c.oid, obj_description(c.oid) AS table_comment, c.relkind, "
    ∷ verbatim "       c.reltuples::bigint AS approx_row_count, "
    ∷ verbatim "       pg_total_relation_size(c.oid) AS total_bytes, "
    ∷ verbatim "       pg_size_pretty(pg_total_relation_size(c.oid)) AS size_pretty "
    ∷ verbatim "FROM pg_class c JOIN pg_namespace n ON n.oid = c.relnamespace "
    ∷ verbatim "WHERE n.nspname = %s AND c.relname = %s "
    ∷ verbatim "  AND c.relkind IN ('r', 'p', 'v', 'm', 'f')"
    ∷ []

abbrev pub columns_of_stmt : Statement
columns_of_stmt =
    verbatim "SELECT column_name, data_type, is_nullable, column_default, "
    ∷ verbatim "       character_maximum_length, numeric_precision, numeric_scale, is_identity "
    ∷ verbatim "FROM information_schema.columns "
    ∷ verbatim "WHERE table_schema = %s AND table_name = %s ORDER BY ordinal_position"
    ∷ []

abbrev pub comments_stmt : Statement
comments_stmt =
    verbatim "SELECT a.attname, col_description(a.attrelid, a.attnum) "
    ∷ verbatim "FROM pg_attribute a "
    ∷ verbatim "WHERE a.attrelid = %s AND a.attnum > 0 AND NOT a.attisdropped"
    ∷ []

abbrev pub primary_key_of_stmt : Statement
primary_key_of_stmt =
    verbatim "SELECT kcu.column_name FROM information_schema.table_constraints tc "
    ∷ verbatim "JOIN information_schema.key_column_usage kcu "
    ∷ verbatim "  ON kcu.constraint_name = tc.constraint_name "
    ∷ verbatim " AND kcu.table_schema = tc.table_schema "
    ∷ verbatim "WHERE tc.table_schema = %s AND tc.table_name = %s "
    ∷ verbatim "  AND tc.constraint_type = 'PRIMARY KEY' "
    ∷ verbatim "ORDER BY kcu.ordinal_position"
    ∷ []

abbrev pub indexes_stmt : Statement
indexes_stmt =
    verbatim "SELECT i.relname AS name, ix.indisunique AS is_unique, "
    ∷ verbatim "       ix.indisprimary AS is_primary, am.amname AS method, "
    ∷ verbatim "       pg_get_indexdef(ix.indexrelid) AS definition, "
    ∷ verbatim "       ARRAY(SELECT pg_get_indexdef(ix.indexrelid, k + 1, true) "
    ∷ verbatim "             FROM generate_subscripts(ix.indkey, 1) AS k ORDER BY k) AS columns, "
    ∷ verbatim "       pg_size_pretty(pg_relation_size(ix.indexrelid)) AS size "
    ∷ verbatim "FROM pg_index ix "
    ∷ verbatim "JOIN pg_class i ON i.oid = ix.indexrelid "
    ∷ verbatim "JOIN pg_am am ON am.oid = i.relam "
    ∷ verbatim "WHERE ix.indrelid = %s ORDER BY i.relname"
    ∷ []

abbrev pub outbound_stmt : Statement
outbound_stmt =
    verbatim "SELECT con.conname, "
    ∷ verbatim
        "       ARRAY(SELECT att.attname FROM unnest(con.conkey) WITH ORDINALITY AS k(attnum, ord) "
    ∷ verbatim
        "             JOIN pg_attribute att ON att.attrelid = con.conrelid AND att.attnum = k.attnum "
    ∷ verbatim "             ORDER BY k.ord) AS columns, "
    ∷ verbatim "       fn.nspname AS foreign_schema, ft.relname AS foreign_table, "
    ∷ verbatim
        "       ARRAY(SELECT att.attname FROM unnest(con.confkey) WITH ORDINALITY AS k(attnum, ord) "
    ∷ verbatim
        "             JOIN pg_attribute att ON att.attrelid = con.confrelid AND att.attnum = k.attnum "
    ∷ verbatim "             ORDER BY k.ord) AS foreign_columns, "
    ∷ verbatim "       con.confupdtype AS on_update, con.confdeltype AS on_delete, "
    ∷ verbatim "       pg_get_constraintdef(con.oid) AS definition "
    ∷ verbatim "FROM pg_constraint con "
    ∷ verbatim "JOIN pg_class ft ON ft.oid = con.confrelid "
    ∷ verbatim "JOIN pg_namespace fn ON fn.oid = ft.relnamespace "
    ∷ verbatim "WHERE con.contype = 'f' AND con.conrelid = %s ORDER BY con.conname"
    ∷ []

abbrev pub inbound_stmt : Statement
inbound_stmt =
    verbatim "SELECT n.nspname AS schema, t.relname AS table, con.conname AS name, "
    ∷ verbatim "       pg_get_constraintdef(con.oid) AS definition "
    ∷ verbatim "FROM pg_constraint con "
    ∷ verbatim "JOIN pg_class t ON t.oid = con.conrelid "
    ∷ verbatim "JOIN pg_namespace n ON n.oid = t.relnamespace "
    ∷ verbatim "WHERE con.contype = 'f' AND con.confrelid = %s "
    ∷ verbatim "ORDER BY n.nspname, t.relname, con.conname"
    ∷ []

abbrev pub constraints_stmt : Statement
constraints_stmt =
    verbatim "SELECT con.contype, con.conname, pg_get_constraintdef(con.oid) AS definition "
    ∷ verbatim "FROM pg_constraint con WHERE con.conrelid = %s AND con.contype IN ('u', 'c') "
    ∷ verbatim "ORDER BY con.contype, con.conname"
    ∷ []
