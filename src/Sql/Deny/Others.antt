-- ===== src/Sql/Deny/Others.antt =====
-- packages/core/src/guard.ts: the functions of the other engines that no statement may call.
use ask_sql.Prelude.{List, [], ◌∷◌, Text, codes}

abbrev pub mysql_deny_functions : List Text
mysql_deny_functions =
    codes "load_file"
    ∷ codes "sleep"
    ∷ codes "benchmark"
    ∷ codes "get_lock"
    ∷ codes "release_lock"
    ∷ codes "release_all_locks"
    ∷ codes "master_pos_wait"
    ∷ codes "source_pos_wait"
    ∷ codes "sys_exec"
    ∷ codes "sys_eval"
    ∷ codes "wait_for_executed_gtid_set"
    ∷ codes "wait_until_sql_thread_after_gtids"
    ∷ []

abbrev pub sqlite_deny_functions : List Text
sqlite_deny_functions =
    codes "load_extension"
    ∷ codes "readfile"
    ∷ codes "writefile"
    ∷ codes "edit"
    ∷ codes "fts3_tokenizer"
    ∷ codes "mkdir"
    ∷ codes "symlink"
    ∷ codes "lsdir"
    ∷ codes "fileio_read"
    ∷ codes "fileio_write"
    ∷ codes "zipfile"
    ∷ []

abbrev pub duckdb_deny_always : List Text
duckdb_deny_always =
    codes "getenv"
    ∷ codes "postgres_execute"
    ∷ codes "mysql_execute"
    ∷ codes "sqlite_execute"
    ∷ codes "postgres_query"
    ∷ codes "mysql_query"
    ∷ codes "sqlite_query"
    ∷ codes "postgres_scan"
    ∷ codes "postgres_scan_pushdown"
    ∷ codes "mysql_scan"
    ∷ codes "sqlite_scan"
    ∷ codes "postgres_attach"
    ∷ codes "mysql_attach"
    ∷ codes "sqlite_attach"
    ∷ codes "iceberg_scan"
    ∷ codes "iceberg_metadata"
    ∷ codes "iceberg_snapshots"
    ∷ codes "delta_scan"
    ∷ codes "ducklake_scan"
    ∷ codes "duckdb_secrets"
    ∷ codes "which_secret"
    ∷ codes "http_get"
    ∷ codes "http_post"
    ∷ codes "http_put"
    ∷ codes "http_delete"
    ∷ codes "http_head"
    ∷ codes "http_patch"
    ∷ codes "read_gsheet"
    ∷ codes "fsdir"
    ∷ codes "query"
    ∷ codes "query_table"
    ∷ codes "load_aws_credentials"
    ∷ codes "set_current_schema"
    ∷ []

abbrev pub duckdb_deny_suffixes : List Text
duckdb_deny_suffixes = codes "_execute" ∷ codes "_query" ∷ codes "_scan" ∷ codes "_attach" ∷ []

abbrev pub duckdb_deny_prefixes : List Text
duckdb_deny_prefixes = codes "read_" ∷ codes "scan_" ∷ []

abbrev pub duckdb_only_deny : List Text
duckdb_only_deny =
    codes "current_setting" ∷ codes "duckdb_settings" ∷ codes "prompt" ∷ codes "open_prompt" ∷ []

abbrev pub duckdb_file_functions : List Text
duckdb_file_functions =
    codes "read_csv"
    ∷ codes "read_csv_auto"
    ∷ codes "sniff_csv"
    ∷ codes "read_parquet"
    ∷ codes "parquet_scan"
    ∷ codes "read_json"
    ∷ codes "read_json_auto"
    ∷ codes "read_json_objects"
    ∷ codes "read_ndjson"
    ∷ codes "read_ndjson_auto"
    ∷ codes "read_text"
    ∷ codes "read_blob"
    ∷ codes "read_xlsx"
    ∷ codes "glob"
    ∷ codes "st_read"
    ∷ codes "st_readosm"
    ∷ codes "st_readshp"
    ∷ codes "st_read_meta"
    ∷ codes "parquet_metadata"
    ∷ codes "parquet_schema"
    ∷ codes "parquet_file_metadata"
    ∷ codes "parquet_kv_metadata"
    ∷ codes "read_json_objects_auto"
    ∷ codes "read_ndjson_objects"
    ∷ []

abbrev pub oracle_deny_functions : List Text
oracle_deny_functions = codes "httpuritype" ∷ codes "dburitype" ∷ codes "xdburitype" ∷ []

abbrev pub oracle_deny_prefixes : List Text
oracle_deny_prefixes =
    codes "utl_file."
    ∷ codes "utl_http."
    ∷ codes "utl_tcp."
    ∷ codes "utl_smtp."
    ∷ codes "utl_inaddr."
    ∷ codes "utl_dbws."
    ∷ codes "urifactory."
    ∷ codes "dbms_scheduler."
    ∷ codes "dbms_job."
    ∷ codes "dbms_pipe."
    ∷ codes "dbms_lock."
    ∷ codes "dbms_java."
    ∷ codes "dbms_sql."
    ∷ codes "dbms_xmlquery."
    ∷ codes "dbms_xmlgen."
    ∷ codes "dbms_metadata."
    ∷ codes "dbms_session."
    ∷ codes "dbms_lob."
    ∷ codes "dbms_ldap."
    ∷ codes "dbms_ldap_utl."
    ∷ []

abbrev pub oracle_sequence_pseudo_columns : List Text
oracle_sequence_pseudo_columns = codes "nextval" ∷ []
