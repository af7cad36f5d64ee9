-- ===== src/Lib.antt =====
-- A model of the safety boundary of AskSQL, the program that turns a question into a query and runs
-- it only if a deterministic guard finds it read-only. A language model writes the query, so the
-- guards treat it as hostile: an SQL text goes through `guardSql`, an aggregation pipeline of MongoDB
-- through `guardPipeline`; both refuse whatever they cannot read, and both put a cap on the rows.
-- What was asked and run is kept in the history store, per connection and user. The engine asks the
-- model, repairs what fails, and executes what passes; it reads the catalog of a connection through a
-- cache. The server opens the connections that a client describes, if it allows their address.
--
-- The parts and their files:
--   Prelude, Prelude/Tests, Prelude/Lists, Prelude/Strings: shared names. A string is a list of
--     UTF-16 code units; `codes` reads a literal.
--   Json, Json/Depth: the values that JSON.parse and the SQL parser build. An object is the list of
--     its own properties in enumeration order. A number is NaN, an infinity or a signed rational.
--   RowCap: packages/core/src/row-cap.ts, `clampMaxRows`, which both guards call.
--   Engine: the engines, `EngineKind` of packages/core/src/types.ts.
--   Mongo: packages/core/src/mongo/guard.ts. Policy (MongoGuardPolicy, resolveMongoGuardPolicy, the
--     rules), Pattern (NESTED_QUANTIFIER, checkPattern), Scan (scanValue), Stages (the allowlist,
--     hasArrayAccumulator, boundsRowCount, collectRefs, subPipelines), Walk (walkPipeline), Cap
--     (limitDecision, capPipeline), Integers (hasUnsafeIntegerLiteral), Shell (relaxShellJson,
--     toStrictPipelineJson) and Guard (guardPipeline). The files below them hold what is proved.
--   Strip: packages/core/src/strip.ts. Spans (the tests and inner loops that `scan` and
--     `trimTrailingNoise` share), Scan (stripCommentsAndStrings, maskCommentsAndStrings), Trim
--     (hasMultipleStatements, trimTrailingNoise); Suffix and Pieces cut a text into characters and
--     spans.
--   Regex: the regular expressions of JavaScript that the guard uses, as data with a backtracking
--     matcher; Regex/Build puts them together, Regex/Sound relates the matcher to a relation.
--   Sql: packages/core/src/guard.ts. Types and Deny (the lists of names), Policy (GuardPolicy,
--     resolveGuardPolicy, the context of the walk), Names (columnNameOf, looksLikeFileOrUrl,
--     functionNameOf), Walk (walk), Patterns and Clauses (the expressions), Executable
--     (hasMysqlExecutableComment), Limit (lowerLimitInText, statementLevelLimit, inspectLimit),
--     Rewrite (oracleFetchTail, the replacements, rewriteSqliteMatch, and withoutFetchTail of
--     packages/core/src/strip.ts), Guard (guardSql, in Statement
--     and Verdict).
--   History: packages/core/src/history.ts, MemoryHistoryStore. FewShots: MemoryFewShotStore there,
--     with the keys of History.
--   Errors: packages/core/src/errors.ts, AskSqlError.
--   IdentifierCase: packages/core/src/identifier-case.ts. The scanner (skipTo and the loop around it,
--     withoutLiteralsAndComments, hasUnterminatedLiteral) and Names (correctTableCase,
--     quoteCatalogIdentifiers, quoteReservedAliases); Skip and Pieces cut a statement as it does.
--   Floors: the tests for tables and columns of packages/core/src/engine.ts (firstUnknownTable, and in
--     Columns ambiguousColumn and firstUnknownColumn); Known, Unqualified, Stray and Ambiguous say what
--     they let pass.
--   Ask: the loop of askImpl in packages/core/src/engine.ts. Ask (the state of the loop and the calls it
--     makes), Texts (prompts, errors and notes), Checks (the verdict that is chosen, a hardcoded answer,
--     a code that no row has), Turn and Loop (the floors and the rounds, from the last step to the first),
--     Entry (what comes before the loop: the tests of the question, the connection, the catalog, the names
--     to quote, and needsQuoting of packages/core/src/catalog.ts). Descent, Bounds, Good, Sound, Safe and
--     Whole hold what is proved. It calls the guard of Sql, the
--     rewriters of IdentifierCase and the tests of Floors.
--   CatalogCache: getCatalog, ensureConnected, stripSampledValues and mayRefreshForStaleness of
--     packages/core/src/engine.ts; Steps has the end of a read and the step relation.
--   Execute: executeGuarded of packages/core/src/engine.ts, behind the guard of Sql.
--   ReasoningFilter: createReasoningFilter of packages/core/src/extract.ts; Suffix relates what it shows
--     to the reply.
--   Suggest: run of an answer, suggestFix and recordFeedback of packages/core/src/engine.ts, which use
--     Execute, IdentifierCase, Floors and FewShots; Redact has redactValuesInError.
--   Connections: packages/server/src/dynamicConnections.ts. Address (ipv4Octets, isLinkLocal), Uri
--     (mongoUriHosts and the test for credentials), Files (realpathOr and the roots), Connections
--     (assertSpecAllowed); Address/Spelling, Named and Credentials say what a client may write.
--
-- How state and control are written: an early return is a branch, a refusal is a value of a rule
-- type (the constructors are the rule ids; the texts of the reasons are left out), and the mutable
-- `violation` of the walks is the first refusal in the order of the traversal. The set of collections
-- is handed from stage to stage; the flags of the caps are results. The `depth` that the code counts
-- up is counted down as `room`, which starts at maxDepth + 1, so that the recursion ends by the code's
-- own test.
-- A question is a state that rounds lead on, and a round either ends or gives the next state; the store
-- of the cache takes steps in any order, a start and its end being two of them; a call of executeGuarded
-- gives its effects in their order and its result.
--
-- Fuel: the loops over a text run on one unit of fuel for each code unit, and each round takes at
-- least one off: `scan_from`, `last_real`, `executes_from`, the integer scan, `last_hit`,
-- `rewrite_from`, and the repetitions of an expression, whose rounds must consume something. So do
-- `scan_code`, `unterminated_from`, `replace_from` and `matches_from`. `real_path` has one unit for each
-- folder above. The loop of a question has six rounds: three attempts, and three retries that cost none.
--
-- What stands outside, as an argument: the SQL parser (a function from text and grammar to a tree,
-- or none where it throws), JSON.parse and JSON.stringify (a record in Mongo/Shell), the server that
-- runs a pipeline (a record in Mongo/Cap/Run), the text that `String` writes for a
-- number, Node's file system (a record in Connections/Files), the reserved words, which are generated,
-- and for a question the records `Calls` in Ask, `Around` in Ask/Entry and `Repairer` in Suggest: the
-- model, the parser's lists of tables and columns, the prompts, and the functions of
-- packages/core/src/extract.ts, packages/core/src/semantics.ts, packages/core/src/schema-match.ts,
-- packages/core/src/scope.ts and packages/core/src/catalog-answers.ts.
--
-- Not modelled: letters outside ASCII in `toLowerCase`, except those whose lower case holds an ASCII
-- letter; a property that holds undefined, which is absent; the error for a statement that is null;
-- the events for listeners; the rest of packages/core/src/engine.ts (codeValuesOf, which reads the values
-- of a coded column with a statement that no guard sees and enters as a call, explain, explainSchema, the
-- checks of the configuration) and packages/core/src/mongo/engine.ts; and the packages around (catalog,
-- prompts, connectors, request handling of the server, user interfaces), which are I/O or are left for
-- later.
pub mod Prelude
pub mod Json
pub mod ReasoningFilter
pub mod RowCap
pub mod Mongo
pub mod CatalogCache
pub mod Connections
pub mod Engine
pub mod Strip
pub mod Regex
pub mod Sql
pub mod Suggest
pub mod Ask
pub mod Errors
pub mod Execute
pub mod FewShots
pub mod Floors
pub mod History
pub mod IdentifierCase
