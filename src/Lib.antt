-- ===== src/Lib.antt =====
-- A model of two parts of ClipKitty: its synchronisation core, the Rust crate purr-sync, and of the
-- crate purr the search: the admission and the ranking of results, their highlights and excerpts, and
-- the cache behind them. The two parts share nothing but the notation of Base.
--
-- The synchronisation. An item of the clipboard history is changed by events. An event carries the
-- base version of the domain that it writes (content, bookmark, existence, touch, metadata). The
-- projector decides what an event makes of an item's aggregate; the replay takes events and
-- snapshots from other devices and stores what the projector decides; the compactor folds the
-- events of an item into its snapshot; the store keeps all of it in SQLite tables.
--
--   Base             notation, lists and texts; Base/Int has u64 and i64 arithmetic, Base/Table the
--                    SQL statements on a table with a text as its primary key, Base/Lists slices of
--                    lists, Base/Map hash maps as association lists
--   Sync/Types       purr-sync/src/types.rs
--   Sync/Event       purr-sync/src/event.rs, snapshot.rs, error.rs
--   Sync/Projector   purr-sync/src/projector.rs: `apply_event` and one function per payload; its
--                    children state what it decides (Outcome), which counters move (Domains) and
--                    which events commute (Commute)
--   Sync/Db          the tables of purr-sync/src/schema.rs as lists of rows, and the environment
--   Sync/Monad       the methods that use the database, and rules to reason about them
--   Sync/Store       purr-sync/src/store.rs, one child for each group of its methods; Laws and
--                    Rebuild are about what is read back
--   Sync/Replay      purr-sync/src/replay.rs: single events and snapshots; Batch has the batch and
--                    retry loops, Tail and Resync the full resync; Consistent, Keeps, BatchKeeps,
--                    ResyncKeeps, Settled, Stable, Waiting, Revisions and Soundness are about the
--                    database that these leave, TailCount and Uncovered about the tail of a resync
--   Sync/Compactor   purr-sync/src/compactor.rs; Triggers is about `needs_compaction`, Folding and
--                    Storing about `compact_item`, Purge about `purge_retained_events`
--   Sync/Examples    data at which the theorems are applied, in Sync/Tests and Sync/LoopTests
--
-- The ranking. A document is prepared once: it is split into tokens, and a small one is folded. Each
-- word of the query is matched against the tokens, which gives candidates with positions; an
-- alignment takes for each word one candidate or none and no position twice; the alignment's signals
-- become a quality tier and bands, and these with the age of the item the bucket score, by which
-- results are ordered.
--
--   Ranking/Types       the ordered score types of purr/src/ranking/policy.rs and its inputs
--   Ranking/Policy      the tier, the bands and the recency bucket of the same file; Bands is about
--                       them
--   Ranking/Order       the derived order of the scores, ScoreOrder that it is one
--   Ranking/Chars       strings; Folding is purr/src/ranking/folding.rs
--   Ranking/Matching    purr/src/ranking/matching.rs; Edits has its edit distances and edit kinds;
--                       Meaning, Fast, Subsequences, Swaps and Distance are about what is matched
--   Ranking/Matches     `WordMatch` of purr/src/ranking.rs and its weights
--   Ranking/Signals     the signals of an alignment; Weights and ClassScore are about their bounds
--   Ranking/Alignment   purr/src/ranking/alignment.rs: the score of an alignment and the two
--                       recursions; Valid says which alignments are allowed, Search and Reach
--                       are about what the recursion leaves, Indexed about bit masks,
--                       Fits about sums of weights, Choice about the choice
--   Ranking/Tokens      the tokenizers of purr/src/ranking.rs and of purr/src/search.rs; Spans is
--                       about the spans
--   Ranking/Document    `PreparedDocument` and `PreparedQuery` of purr/src/ranking.rs
--   Ranking/Candidates  the candidates of a query word; Trim is about `trim_match_candidates`
--   Ranking/Score       the plans, the exactness signals and `compute_bucket_score`; Laws is about
--                       them, Fits about the weight of the query as it is typed
--   Ranking/Tests       words, alignments and documents at which the theorems are applied
--
-- The admission. The index returns candidates in the order of a first score. A head of them goes to
-- the ranking; a candidate of the tail is admitted where a scan of its content, which is paid from a
-- budget, finds the words of the query by the matching of the ranking.
--
--   Search/Admission    purr/src/candidate.rs, and of purr/src/search_admission.rs the head and the
--                       end of the recall; Head is about its size
--   Search/Tail         of purr/src/search_admission.rs the scan of the tail; Budget is about what it
--                       costs
--   Search/Detection    purr/src/content_detection.rs, which tells colours and links from other text
--   Search/Tests        contents and candidates at which the theorems are applied
--
-- The highlights. The words of the query are matched against the tokens of a content as in the
-- ranking, which gives highlights, ranges of characters. An excerpt is a window around their densest
-- cluster with its whitespace normalized; a preview shows the whole content with the highlights
-- around one of them. Both give their ranges in UTF-16.
--
--   Highlight/Types     the highlights, excerpts and previews of purr/src/interface.rs and search.rs
--   Highlight/Words     of purr/src/search.rs the highlights of matched words and their bridging;
--                       Ranges is about their order
--   Highlight/Analysis  the analysis of a content for a query, excerpts and preview decorations;
--                       Ranges, Previews and Excerpts are about them
--   Highlight/Densest   `find_densest_highlight`, Laws is about it
--   Highlight/Focus     `limit_preview_highlights`; Anchor is about the highlight to scroll to
--   Highlight/Excerpt   policies, normalization and the limit on line breaks; Whitespace, Tidy and
--                       Breaks are about them
--   Highlight/Snippet   `generate_snippet_with_policy` and what calls it; Bounds is about lengths and
--                       ranges
--   Highlight/Utf16     the conversion of ranges to UTF-16
--
-- The presentation. Analyses and match contexts are cached for a few queries. A row of the results
-- has its excerpt at once, or a placeholder and a request that is resolved later.
--
--   Presentation/Context  `CachedMatchContext` of purr/src/match_presentation.rs
--   Presentation/Cache    `HighlightAnalysisCache` of the same file; Bounded, Calls and Sound are about
--                         what it holds
--   Presentation/Items    `MatchPresentation` of the same file; Transparent is about the cache
--                         behind it, Made about excerpts that are always made
--   Results/Query         `SearchQuery` of purr/src/search.rs and the filters
--   Results/Outcome       results, errors, cancellation and abortion by a panic
--   Results/Trigram       `search_trigram_query` of purr/src/search_result_builder.rs; Metadata is
--                         about the row of an item, Served about the rows that it gives
--
-- Highlight/Tests, Presentation/Tests and Results/Tests apply the theorems; Ranking/Chars/Samples has
-- their tables of characters.
--
-- A method of `SyncStore` is a function from a world to a result and a world. A world is the
-- database and the number of statements and clock readings so far; an `Env` says for each number
-- which fault strikes the statement, if any, and what the clock shows. A statement that fails
-- changes nothing, and what stood before it stays, as in the code, which opens a transaction only
-- in `replace_index_queue_with_full_rebuild` and `delete_events_and_dedup_by_ids`. A theorem that
-- says where no statement fails takes an `Env` without faults (`IsQuiet`).
--
-- Parameters: serde_json (`Serde`, with what it reads back as `IsSerde`), the hash of a text, the
-- clock, the text of a deferral's reason, the faults, and the UUID of a new event. A u64 is a
-- natural number with saturating addition; the casts to and from the i64 of a column are inverse,
-- so a row holds the number. Loops over lists are structural recursion; the rounds of
-- `retry_deferred_events` recurse on the number of rounds left, which starts at the code's three.
-- No definition has other fuel.
--
-- In the ranking a string is the list of its code points, and its length in bytes is added up from
-- theirs. Parameters: the Unicode tables of the Rust library and of unicode_normalization, and the
-- distances of strsim and triple_accel (`Unicode`); for the detection, trimming, lowercasing and the
-- crates validator and csscolorparser (`Detector`). The workspace is built with overflow
-- checks and aborts on a panic. In the model a sum of u16 or u32 weights that does not fit, and a
-- difference of i64 that does not, is the wrapped number instead, so a theorem about what depends on
-- one assumes that it fits; scores saturate or are cast as in the code, and a set of positions in the
-- bits of a u64 is a number with the bitwise operations. The recursions of the alignment go over the
-- lists of candidates, those of the words over the words, so none has fuel. The slice of the words
-- that are set is modelled up to the index that is being set, since what follows is set before it is
-- read.
--
-- In the highlights and the presentation the result of what may panic is an option: an index or a slice out
-- of range, `clamp` with its bounds turned round, and a failed `expect` give none. The lock of the
-- cache makes each of its methods one step. Parameters: the hash of a content, what the database and
-- the index answer, and for each check of the cancellation token whether it says yes, since another
-- thread cancels a search. The parallel iterator over requests is modelled in the order of the
-- requests. The loops of the densest cluster and of the line breaks go over lists, or over the
-- characters left to the match. The positions and lengths of the densest cluster are natural numbers,
-- and its theorem assumes ranges whose windows and coverage fit into a u64. How often the index asks
-- the cancellation token is a parameter.
--
-- Not modelled: the migrations in purr-sync/src/schema.rs, the connection pool; of the crate purr the
-- variants of the ranking that measure times, the decoding of the first score (it computes with
-- floating-point numbers), the search index, the database, preview payloads and rows of empty and of
-- short queries, which are queries of the database first of all, the threads of the search service
-- and the bridge to the sync store; the applications and the tools.
pub mod Base
pub mod Sync
pub mod Ranking
pub mod Search
pub mod Highlight
pub mod Presentation
pub mod Results
