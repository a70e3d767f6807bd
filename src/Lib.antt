-- ===== src/Lib.antt =====
-- A verification library of mcp-postgres, an MCP server that administers one PostgreSQL host.
--
-- The program is a set of tools. A tool takes the current database from a manager of connection
-- pools, asks a guard whether the database role and the helper process give it the privileges it
-- needs, acts through the database layer or through a privileged helper, and stamps its result
-- with what has changed about the privileges. The tools that configure the server edit
-- postgresql.conf and pg_hba.conf as text. Over HTTP an OAuth authorization server stands in
-- front, which one operator passphrase unlocks. This library models:
--
--   src/mcp_postgres/confedit.py        Confedit.antt, its children prove
--     `format_value`, `set_conf_value`, `_comment_out`, `_norm`, `is_shadowed_source` and
--     `append_hba_rule` have their names. The three passes of `set_conf_value` are `update_lines`.
--   src/mcp_postgres/oauth/store.py     Oauth/Store.antt: the four sqlite tables as association
--     lists (Oauth/Table.antt); a method is a function of the clock reading and the store.
--   src/mcp_postgres/oauth/provider.py  Oauth/Provider.antt: the methods of PostgresOAuthProvider.
--   src/mcp_postgres/oauth/login.py     Oauth/Login.antt: the login route, GET and POST.
--     Oauth/Gate.antt is the sequence of requests that reach the provider, in any order.
--   src/mcp_postgres/capabilities.py    Capabilities.antt: the tiers, the probes, the caches and
--     `enabled_tools_for`; Capabilities/Guard.antt: the change notices and `guard`. The check of the
--     helper can raise, and the exception goes through the guard, the report and the tools;
--     Capabilities/Advertised.antt: what each handler asks of the guard.
--   src/mcp_postgres/db.py              Db.antt: the methods of Database.
--   src/mcp_postgres/manager.py         Manager.antt: the methods of DatabaseManager; `use` is
--     `switch`.
--   privhelper.py                       Priv.antt: the commands of the helper, and `main`.
--   src/mcp_postgres/privclient.py      Priv/Client.antt: the methods of PrivClient.
--   src/mcp_postgres/tools/base.py      Tools/Base.antt: `guard_or_error` and `attach`;
--     Tools/Rows.antt: `cell` and `rows_as_dicts`.
--   src/mcp_postgres/tools/query.py and tools/admin.py    Tools/Query.antt: a call of a tool is a
--     `Request`, and `serve` is its handler.
--   src/mcp_postgres/tools/config_files.py                Tools/ConfigFiles.antt
--   src/mcp_postgres/tools/observability.py               Tools/Observability.antt
--   src/mcp_postgres/tools/introspection.py               Tools/Introspection.antt: Queries has the
--     catalogue queries, Collect `collect_db_schema`, Handlers the tools that ask one database
--     (`Inquiry`, and `inquire` is their handler; `health_check`), Target those that work on the
--     manager, `get_capabilities` and `use_database`.
--   src/mcp_postgres/environment.py     Environment.antt: the caches of the module are a part of
--     the state `Process`; Capabilities/Report.antt is the report that it is a part of.
--   src/mcp_postgres/server.py          Server.antt: the bearer middleware, `resolve_oauth`,
--     `_transport_security`, and `front`, what `main` puts before the application.
--   src/mcp_postgres/config.py          Config.antt: the schema of config.toml and the report on
--     what a file lacks; Config/Load.antt: `check_config` and `load_config`.
--   src/mcp_postgres/configmigrate.py   Migrate.antt: `apply_migration` is the edit by a report of
--     what is missing, `migrate` the same with the report that config.py makes.
--
-- Prelude.antt, PyText.antt and Effect.antt are shared: Boolean tests on the native naturals,
-- lists, Python's text operations (`strip`, `splitlines`, `join`, the regular expressions that the
-- source uses, with their backtracking), and calls that change a world and can raise.
--
-- What is not in the repository is a parameter, as a record of the calls that the source makes:
-- the driver with the pool and the server behind it (Db.Server), the pools by name
-- (Manager.Pools), the probes of a host (Capabilities.Host), the operating system under the helper
-- (Priv.Os), the start of a process (Priv.Client.Subprocess) and the platform library
-- (Environment.Platform); the TOML parser, the codec of a header, the checks of a URL and the guard
-- of the SDK are functions. Each record acts on a world of a type
-- that is a parameter too. Where a result depends on what these do, the hypotheses are records of
-- documented behaviour: of PostgreSQL's transactions and savepoints in Db/Postgres.antt, of the
-- contents of files in Priv/Files.antt, of LIKE in Tools/Observability/Prefix.antt, of the pool
-- library in Manager/Pooled.antt, where the open pools are a multiset, of a TOML parser in
-- Migrate/Toml.antt, of the server's reader of quoted values in Confedit/Value.antt and of a clock in
-- Capabilities/Guard/Cached.antt. Db/Toy.antt,
-- Priv/Toy.antt and the modules called Tests have worlds that meet them.
--
-- A text is a list of code points where the program looks inside it, and a String where it only
-- compares it. Case folding is exact for ASCII and the two other code points that fold to it; what
-- counts as a decimal digit is a parameter. Time counts microseconds and every clock reading is an
-- argument or comes from the host, as does every random token; `second` is 1000000. All recursion
-- is structural: there is no fuel. An exception is kept by its text, and a result by its fields:
-- notes for the reader and the JSON around them are left out.
--
-- Not modelled: the HTML of the pages, the sqlite file and its mode, the registration with the MCP
-- library with its prompts and resources, the ASGI application behind its front, sockets, the tools
-- of tools/schema.py, which are queries of the catalogue, and the scripts that test, install and
-- update the service.
pub mod Prelude
pub mod PyText
pub mod Confedit
pub mod Oauth
pub mod Capabilities
pub mod Effect
pub mod Db
pub mod Priv
pub mod Tools
pub mod Manager
pub mod Migrate
pub mod Config
pub mod Environment
pub mod Server
