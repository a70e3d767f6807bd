-- ===== src/Tools/Introspection/Guarded.antt =====
-- tools/introspection.py: the handlers behind their guard.
use mcp_postgres.Prelude.{String}
use mcp_postgres.Effect.{◌>>=◌}
use mcp_postgres.Db
use mcp_postgres.Tools.Introspection.Handlers.{
  Inquiry, list_databases, list_schemas, list_tables, describe_table,
}

abbrev pub inquiry_name : Inquiry → String
inquiry_name list_databases = "list_databases"
inquiry_name list_schemas = "list_schemas"
inquiry_name (list_tables schema) = "list_tables"
inquiry_name (describe_table table schema) = "describe_table"
