-- ===== src/Sql/Deny/Postgres.antt =====
-- packages/core/src/guard.ts: the functions of PostgreSQL that no statement may call.
use ask_sql.Prelude.{List, [], ◌∷◌, Text, codes}

abbrev pub pg_deny_functions : List Text
pg_deny_functions =
    codes "pg_sleep"
    ∷ codes "pg_sleep_for"
    ∷ codes "pg_sleep_until"
    ∷ codes "pg_read_file"
    ∷ codes "pg_read_binary_file"
    ∷ codes "pg_ls_dir"
    ∷ codes "pg_stat_file"
    ∷ codes "pg_terminate_backend"
    ∷ codes "pg_cancel_backend"
    ∷ codes "pg_reload_conf"
    ∷ codes "pg_rotate_logfile"
    ∷ codes "pg_switch_wal"
    ∷ codes "pg_promote"
    ∷ codes "pg_create_restore_point"
    ∷ codes "pg_logical_emit_message"
    ∷ codes "pg_notify"
    ∷ codes "set_config"
    ∷ codes "dblink"
    ∷ codes "dblink_exec"
    ∷ codes "dblink_connect"
    ∷ codes "dblink_connect_u"
    ∷ codes "dblink_send_query"
    ∷ codes "dblink_open"
    ∷ codes "dblink_fetch"
    ∷ codes "dblink_close"
    ∷ codes "dblink_cancel_query"
    ∷ codes "dblink_get_result"
    ∷ codes "lo_import"
    ∷ codes "lo_export"
    ∷ codes "lo_put"
    ∷ codes "lo_from_bytea"
    ∷ codes "lo_unlink"
    ∷ codes "lo_creat"
    ∷ codes "lo_create"
    ∷ codes "lowrite"
    ∷ codes "loread"
    ∷ codes "lo_open"
    ∷ codes "lo_close"
    ∷ codes "lo_truncate"
    ∷ codes "lo_truncate64"
    ∷ codes "lo_lseek"
    ∷ codes "lo_lseek64"
    ∷ codes "lo_get"
    ∷ codes "lo_get_fragment"
    ∷ codes "lo_read"
    ∷ codes "pg_advisory_lock"
    ∷ codes "pg_advisory_lock_shared"
    ∷ codes "pg_advisory_xact_lock"
    ∷ codes "pg_advisory_xact_lock_shared"
    ∷ codes "pg_try_advisory_lock"
    ∷ codes "pg_try_advisory_lock_shared"
    ∷ codes "pg_try_advisory_xact_lock"
    ∷ codes "pg_try_advisory_xact_lock_shared"
    ∷ codes "pg_advisory_unlock"
    ∷ codes "pg_advisory_unlock_shared"
    ∷ codes "pg_advisory_unlock_all"
    ∷ codes "pg_create_logical_replication_slot"
    ∷ codes "pg_create_physical_replication_slot"
    ∷ codes "pg_drop_replication_slot"
    ∷ codes "pg_replication_origin_create"
    ∷ codes "pg_replication_origin_drop"
    ∷ codes "pg_replication_origin_session_setup"
    ∷ codes "pg_replication_origin_session_reset"
    ∷ codes "pg_replication_origin_advance"
    ∷ codes "pg_replication_origin_xact_setup"
    ∷ codes "pg_replication_origin_xact_reset"
    ∷ codes "pg_logical_slot_get_changes"
    ∷ codes "pg_logical_slot_get_binary_changes"
    ∷ codes "pg_stat_reset"
    ∷ codes "pg_stat_reset_shared"
    ∷ codes "pg_stat_reset_single_table_counters"
    ∷ codes "pg_stat_reset_single_function_counters"
    ∷ codes "pg_stat_reset_slru"
    ∷ codes "pg_stat_reset_replication_slot"
    ∷ codes "pg_export_snapshot"
    ∷ codes "pg_log_backend_memory_contexts"
    ∷ codes "pg_ls_logdir"
    ∷ codes "pg_ls_waldir"
    ∷ codes "pg_ls_tmpdir"
    ∷ codes "pg_ls_archive_statusdir"
    ∷ codes "pg_ls_replslotdir"
    ∷ codes "pg_ls_logicalsnapdir"
    ∷ codes "pg_ls_logicalmapdir"
    ∷ codes "pg_current_logfile"
    ∷ codes "pg_logdir_ls"
    ∷ codes "pg_read_server_files"
    ∷ codes "fsdir"
    ∷ codes "pg_file_write"
    ∷ codes "pg_file_unlink"
    ∷ codes "pg_file_rename"
    ∷ codes "pg_file_sync"
    ∷ codes "pg_start_backup"
    ∷ codes "pg_stop_backup"
    ∷ codes "pg_backup_start"
    ∷ codes "pg_backup_stop"
    ∷ codes "pg_wal_replay_pause"
    ∷ codes "pg_wal_replay_resume"
    ∷ codes "pg_replication_slot_advance"
    ∷ codes "pg_stat_statements_reset"
    ∷ codes "pg_import_system_collations"
    ∷ codes "gin_clean_pending_list"
    ∷ codes "brin_summarize_new_values"
    ∷ codes "brin_desummarize_range"
    ∷ codes "brin_summarize_range"
    ∷ codes "pgstattuple"
    ∷ codes "pgstatindex"
    ∷ codes "pgstatginindex"
    ∷ codes "query_to_xml"
    ∷ codes "query_to_xmlschema"
    ∷ codes "query_to_xml_and_xmlschema"
    ∷ codes "table_to_xml"
    ∷ codes "table_to_xmlschema"
    ∷ codes "table_to_xml_and_xmlschema"
    ∷ codes "cursor_to_xml"
    ∷ codes "cursor_to_xmlschema"
    ∷ codes "schema_to_xml"
    ∷ codes "schema_to_xmlschema"
    ∷ codes "schema_to_xml_and_xmlschema"
    ∷ codes "database_to_xml"
    ∷ codes "database_to_xmlschema"
    ∷ codes "database_to_xml_and_xmlschema"
    ∷ codes "nextval"
    ∷ codes "setval"
    ∷ []

abbrev pub pg_deny_prefixes : List Text
pg_deny_prefixes = codes "pg_ls_" ∷ codes "pg_read_" ∷ []
