-- ===== src/Lib.antt =====
-- Verification library of perloxide, a Perl runtime and parser in Rust.
--
-- The runtime (core/src) represents a Perl value in a sixteen-byte envelope; its strings carry what
-- is known of their bytes as a scan state, so that validity and range questions are answered without
-- reading the bytes again. The parser (parser/src) tracks packages, prototypes and pragmas.
--
-- Files and what they model:
-- - Warnings: core/src/warnings.rs. Category has the enum, its discriminants and `from_bit`; Names
--   has `name` and `from_name`; Tree has `parent`, `within` and `default_enabled`. A `match` over
--   literals is the list of its arms, searched from the top.
-- - Scan: the module `scan` of core/src/string.rs. States has the enums, storage bytes and
--   predicates; Meet has the fact sets and the narrowing meet; Classes says what a state asserts of
--   each of the five classes of content. Narrow is the loop `narrow_scan` of core/src/cow_buffer.rs,
--   over a list of what other threads do before each of its swaps.
-- - Utf8: the decoder of core/src/string.rs (`decode_one`) and the passes over it. Walk has the span
--   decoder with its closures' reports, the blocked classifier and its sinks. Spec reads content
--   plainly, as the code points that it decodes to.
-- - Packed: the nibble-packed tier of core/src/string.rs. Alphabet has the symbol lists and their
--   tables, Nibbles the payload's halves, Codec `pack`, `pack_in` and the methods `len`, `unpack`,
--   `eq_bytes` and `padding_is_canonical` of `Packed`, Append `transcode` and `push`, and Order
--   `cmp_bytes`.
-- - Symbol: parser/src/symbol.rs. Prototype has `SubPrototype::parse`, Table the packages, imports
--   and `lookup`. A name is the list of its bytes, a map is a list of entries, and an error's text is
--   a constructor with the byte that it quotes.
-- - Pragma: parser/src/pragma.rs. Features has the 32-bit set, Bundles the version bundles, Names
--   `resolve_feature_name` and `resolve_bundle_alias`.
-- - Keyword: parser/src/keyword.rs. Rows has the keyword table, a row for a keyword; Lookup has the
--   name map, `lookup_keyword` and the predicates.
-- - Array: PerlArray of core/src/containers.rs. Geometry has the struct of that name, `grow` and
--   `extend_to`, Engine the closures of the methods, and Header the compact and the boxed header
--   with the methods. A buffer is the list of its slots, and a geometry keeps, besides its fields,
--   the list of the values that assignments to slots have dropped. Slots has reads, writes, copies
--   and clearing; Window the window invariant; Holes the contents as a list. Backend has
--   the size classes of core/src/alloc_backend.rs without jemalloc.
-- - Latin1: the byte transforms of core/src/cow_buffer.rs. Words has `variant_count` and
--   `first_variant`, which read eight bytes at a time, and Transform `widen_latin1`,
--   `upgraded_bytes`, `latin1_contractions` and `downgraded_bytes`. A sink is a function on a
--   state, and a reservation of memory is a test of its size. InPlace has the two forms that rewrite
--   one allocation, whose memory is the list of its bytes.
-- - Numeric: numification and rendering, of core/src/value.rs and core/src/numeric.rs. Text has
--   `digit_run`, which reads eight bytes at a time, and `split_sign`; Parse `parse_int_i64_visible`
--   and `parse_float_spanned`; Classify `classify_numeric_noting_warning` and the grammar
--   `string_would_warn`. Cache has `DigitCache`, an array of seven bytes; Present `float_digits`,
--   `present_float` and `format_float_into`; Render the payloads and their `render` and `filled`. The
--   type f64 is a parameter, with the parse of a decimal text and the scientific form of a float; a
--   rendering is its text.
-- - Source: parser/src/source.rs. Line has `LexerLine` and its view under a bound, Raw
--   `read_raw_line`, Reader the source layer of `Parser` with `next_line`, `install_line` and
--   `pop_context`, and Lookahead the guard of a speculative scan, its drop and `consume_lookahead`.
--   The stack of frames has its top first. Utf16 has `detect_and_transcode`. Stream, Delivery,
--   Scanning, Speculate and Resumed say what is still to be delivered, and what a scan and its drop
--   do to it.
-- - Prelude: what the others share: tests, lists, texts, arms of a match, bits.
--
-- Numbers: a byte and a machine integer are natural numbers, with the source's own bounds checks
-- written out. Panics are `none`, or are excluded by a hypothesis that callers meet. A `while` loop
-- recurs on fuel and answers `fuel_out` or `none` when that runs out; the fuel that a
-- definition gives is enough: the length in bytes for a prototype and for the passes over content,
-- since a round moves at least one byte; the number of the table's imports and one more for
-- `resolve`, since each round but the last leaves an import that was not visited before; three
-- for the walk to the root of the category tree; the length in bytes and one more for a
-- digit run by words; twenty rounds for the digits of a number below 2^64; and the length of the source
-- for the lines still to be read. `consume_lookahead` is given its fuel by the caller. Source offsets are
-- exact: a source is shorter than 2^32 bytes.
--
-- Not modelled: the allocator back end but for its size classes, test instrumentation, and unsafe
-- pointer copies except for the bytes that they copy; the vector forms of `digit_run`; hashes and
-- the dispatch between container engines, scalars, the envelope of values and the sharing of buffers
-- in core/src; heredocs and delimited bodies in the source reader, the lexer, the parser and the
-- syntax tree in parser/src.
mod Prelude
pub mod Warnings
pub mod Scan
pub mod Utf8
pub mod Packed
pub mod Symbol
pub mod Pragma
pub mod Keyword
pub mod Array
pub mod Latin1
pub mod Numeric
pub mod Source
