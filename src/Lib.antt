-- ===== src/Lib.antt =====
-- wilanis: a language for programs made of effects, written as JSON documents. A checker judges a
-- tree of documents, an engine runs the graphs it approved, and plugins touch the world.
--
-- Modelled, one module for a part:
--
-- - Common: names of the libraries passed on, Boolean tests, lists, and JavaScript objects and maps
--   as association lists.
-- - Types: packages/core/src/types.ts, assign.ts and values.ts. `Ty` is `Type`, with `Fields` for the
--   table of an object's fields and `Open` for what it is open to; `Value` is a JSON value, over a
--   type that stands for the doubles. Types/Assign has `assignable` and `assignableTrimmed`,
--   Types/Conform `problemOf` and `prune`, Types/TypeAt `typeAt`, Types/Refs the grammar of a type
--   reference. A refusal's text is a constructor that carries what the text names.
-- - Expr: packages/core/src/expr/ast.ts, check.ts and evaluate.ts. `Expr` is `Expr`, a path its first
--   segment and the others; Expr/Check has `provedBy`, `readAt` and `check`, whose throw is a result
--   of its own; Expr has `evaluate`, with `none` for `undefined`. Expr/Keys is `path.join('.')`.
-- - Queue: packages/plugin-queue-memory/src/queue.ts, consumer.ts and broker.ts. A `Queue` is one
--   queue of one connection with its consumers; `step` is one event at one moment: a publish, a
--   delivery answered, a new consumer, its timer, its stop. The loop of `pump` takes one waiting
--   message in each round, so it is given as many rounds as messages wait.
-- - Storage: packages/plugin-storage-memory/src/engine.ts with match.ts, and the guard of `patch` in
--   packages/plugin-storage/src/handlers.ts. A `Store` is the engine's map of maps; Storage/Rows has
--   what a call sees (`within`, `row`, `repeats`, `get`), Storage/Write what it changes (`put`,
--   `patch`, `remove`), each answering the store after it and what the source returns.
--   Storage/Match has the filters and orderings of match.ts, Storage/Find `find` and `count`, where
--   the language's `sort` is Storage/Sorting, which Storage/Insertion shows can be had.
--   Storage/Changes says of the three writes at once what they do to the maps, Storage/Run puts them
--   in sequence over the collections that a `Schema` declares.
-- - Throttle: packages/plugin-http/src/throttle.ts. A `Gate` is a `Throttle` with the requests whose
--   loop in `run` is to look again and the moments requests started at; `step` is one event: a call,
--   one turn of the loop with what its two reads of the clock answer, a settlement.
-- - Kernel: packages/engine/src/spec.ts, sources.ts and plan.ts. `Source` is `KSource`, `Node` what a
--   plan reads of `KNode`; Kernel has `refsOf`, `readSource` and `readAll`, Kernel/Plan `waitsFor`,
--   `invert` and `planOf`. A `Set` is a list that `add` puts no name into twice.
-- - Kernel/Run: packages/engine/src/run.ts. Kernel/Run/State has `Run`, the fields of `Run`, and
--   Kernel/Run/Stops how a run ends and cancels; `step` is one event: the signal aborts, the loop of
--   `execute` looks (`schedule`), a handler answers or breaks, the `finally` of `start` runs
--   (`retire`). Kernel/Report is report.ts with `rootPaths` of spec.ts, `outcomeOf` with `refusalOf`
--   of kernel.ts. Kernel/Redact is `redactValue`, `redactEach` and `shownRead` of redact.ts.
-- - Cron: packages/plugin-schedule/src/cron.ts. Cron has `parseCron`, with Cron/Term for a term of a
--   field; Cron/Calendar the reading of minutes as dates in UTC; Cron/Tick `nextTick`,
--   `ticksBetween`, `nextInterval` and `intervalsBetween`.
-- - Expr/Syntax: packages/core/src/expr/parse.ts, whose `Parser` is a function from the tokens that are
--   left, and Expr/Syntax/Lex lex.ts, where an index into a text is the text from there on.
--
-- How they interact: what a tree says of a value is judged by Types before anything runs, and the
-- same types judge the value at run time. Expr/Syntax reads the rules of a switch, Expr types their
-- paths by Types/TypeAt and evaluates them on the values that the Kernel's readers read; Kernel/Run
-- takes what a switch's rules and a node's reader answer, and Kernel/Plan says what a node waits
-- for. The queue, the storage engine, the throttle and the schedules are parts of plugins behind
-- ports, and know no types.
--
-- Bounds and parameters: numbers are of a type with the operations the source asks of doubles
-- (`Floats`). Types are finite trees: a shape that refers to itself is not one. `===` on two types
-- is a parameter, of which it is used that one object is one type. A name inherited from
-- `Object.prototype` is not taken for a field. The ids, the clock and what a handle answers are
-- arguments of the events. What JavaScript says of values of two kinds (`Coercions`) and
-- how it spells numbers, lists and objects (`Spelling`, `Numerals`) are parameters, as is what a
-- text of digits reads as; of `Spelling` it is used that `Object.is` on numbers is reflexive and
-- symmetric, and of the order of texts and numbers (`Collation`) that it turns round with its
-- arguments and is transitive. What the language's sort makes of a list (`Sorting`) is a parameter:
-- it rearranges, whatever the comparison, and puts in order where the comparison is consistent, as
-- it is where each field that is ordered by holds values of one kind. The clock of a zone, which
-- the language has, is a function from minutes to dates. A record is copied on its way in and out
-- of the engine, so a model by values has no aliasing to track.
--
-- Loops that do not recur on their data have rounds, and as many as they can need: `pump` one for
-- each message that waits; `cancel` one for each node of the graph, and `schedule` one more than
-- there are nodes; the parser six for each token and six more, and the lexer one more than there
-- are characters; the search for a tick the minutes of four years, which is the source's own bound.
--
-- Not modelled: the loader, the compiler's judges, the SQL engines, the other plugins, the command
-- line and the viewer, each being input and output, glue, or not reached yet; of a run, the
-- elements of a map node, the secrets that an answer carries over from what its node read, and the
-- moments in its reports; of the memory engine, `newKey`, transactions, and the answers to
-- migrations, which are constants; of the throttle, the table of gates per environment; of
-- schedules, the scheduler with its timers and holds.
pub mod Common
pub mod Types
pub mod Queue
pub mod Expr
pub mod Storage
pub mod Throttle
pub mod Kernel
pub mod Cron
