-- ===== src/Sql/Types.antt =====
-- packages/core/src/guard.ts: the types of statements that write.
use ask_sql.Prelude.{List, [], ◌∷◌, Text, codes}

abbrev pub write_types : List Text
write_types =
    codes "insert"
    ∷ codes "update"
    ∷ codes "delete"
    ∷ codes "replace"
    ∷ codes "merge"
    ∷ codes "create"
    ∷ codes "drop"
    ∷ codes "alter"
    ∷ codes "truncate"
    ∷ codes "rename"
    ∷ codes "use"
    ∷ codes "set"
    ∷ codes "lock"
    ∷ codes "unlock"
    ∷ codes "call"
    ∷ codes "grant"
    ∷ codes "revoke"
    ∷ codes "deny"
    ∷ codes "comment"
    ∷ codes "analyze"
    ∷ codes "attach"
    ∷ codes "detach"
    ∷ codes "copy"
    ∷ codes "vacuum"
    ∷ codes "reindex"
    ∷ codes "pragma"
    ∷ codes "do"
    ∷ codes "execute"
    ∷ codes "prepare"
    ∷ codes "deallocate"
    ∷ codes "declare"
    ∷ codes "begin"
    ∷ codes "start"
    ∷ codes "commit"
    ∷ codes "rollback"
    ∷ codes "savepoint"
    ∷ codes "transaction"
    ∷ codes "load"
    ∷ codes "install"
    ∷ codes "import"
    ∷ codes "export"
    ∷ codes "backup"
    ∷ codes "restore"
    ∷ codes "checkpoint"
    ∷ codes "refresh"
    ∷ codes "cluster"
    ∷ codes "listen"
    ∷ codes "notify"
    ∷ codes "discard"
    ∷ codes "reset"
    ∷ codes "security"
    ∷ []

-- packages/core/src/guard.ts: the pragmas that only read.
abbrev pub sqlite_pragma_read_allowlist : List Text
sqlite_pragma_read_allowlist =
    codes "table_info"
    ∷ codes "table_xinfo"
    ∷ codes "table_list"
    ∷ codes "index_list"
    ∷ codes "index_info"
    ∷ codes "index_xinfo"
    ∷ codes "foreign_key_list"
    ∷ codes "database_list"
    ∷ codes "function_list"
    ∷ codes "collation_list"
    ∷ codes "compile_options"
    ∷ []
