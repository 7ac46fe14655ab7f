-- ===== src/Lib.antt =====
-- Verification of Lagrange Images, a system of persistent object images that several languages share.
--
-- The program is JavaScript under src/. A client's call reaches the image service, which asks the
-- authority service whether the caller may make it, reads and writes records of the backend under
-- expected versions, and runs code of the image. Execution keeps its transient state, such as
-- conditions, beside the records and never in them.
--
-- Base holds what the modules share: Boolean tests, lists and options over native numbers, texts as
-- code points, decimal numerals, Result for calls that may throw, and Dict, JavaScript's Map with
-- text keys in insertion order, on which the stores below stand.
--
-- Support/TupleMap models src/support/tuple-map.js: the class TupleMap as nested Maps with a size; set,
--   get, has, delete and the iterator are `set`, `lookup`, `contains`, `delete` and `entries`.
-- Support/PortableBytes models src/support/portable-bytes.js: base64, base64url and hexadecimal.
-- Support/Utf8 is the host's text coder, a parameter with its documented laws: the decoder removes a
--   byte order mark at the front.
-- Authority models src/authority/authority-service.js: a context is an index into the private table, and
--   `issue`, `attenuate`, `revoke` and `require` take the table and give a new one or an error.
-- Object/Resource models src/authority/object-resource.js, and Object/VersionToken models
--   src/object/version-token.js: the names and the version tokens of objects.
-- Backend models src/backend/mock-backend.js: `put_into`, `append_to`, `get_from` and the stream reads
--   take the state, `transaction` runs work on a draft, and `exec_all` any sequence of calls, since
--   `exclusive` runs them one after the other. The work of a transaction is a tree of calls, each
--   with what is done next for every answer, errors included. The host's JSON is a parameter.
--   Maps are values here, without identity: `draft_of` copies a draft name by name, but that a draft
--   shares no bucket with the state cannot be said.
-- Execution/Conditions models src/execution/conditions.js: a Block is a tree of operations, `exec` runs
--   it on a runtime of two stacks. Its first argument is the depth of the host's stack. A depth that
--   is used up is a thrown error that unwinds like every other, so the theorems hold at each depth.
-- Language/DictionaryTable models src/language/smalltalk-dictionary-table.js and the snapshot that at:put:
--   of src/language/smalltalk-primitives-dictionary.js computes; `equals` is what = answers.
--
-- Graph/Canonical and Graph/Diff model src/graph/diff.js: canonicalClone, canonicalJson (`same`) and
--   normalizeRecordForDiff; computeSlotChanges, the loop of diffImageRecords (`diff_maps`), and in
--   Graph/Diff/Replay the history of an image up to a frontier.
-- Graph/Merge models src/graph/merge.js: Values the three-way rule (`choose`) for fields, maps and indexed
--   parts, Rehome the move of records to another image, Objects the merge of two versions of an
--   object or an environment, Records the outcome for one identity (`merge_one`), Plan the loop of
--   mergeImageRecords, and Apply the writes of applyImageMerge over an image service, a record of a
--   find and a put. The fields of a record are JSON values in Base/Json: `undefined` is a missing
--   field, and a number that is no natural number is its text. Base/TextOrder is compareText, the
--   order of UTF-16 code units, and the sorting by it. The sort of the writes compares with NaN if a kind
--   bears an inherited name: its order is then the host's, the parameter `host_sort`.
-- Graph/Reachability and Graph/Collection model src/graph/reachability.js: buildImageGraphIndex with the
--   local references and the dependents, the loop of computeReachableImageClosure (`walk`), and the
--   plan and the sweep of a collection. `walk` has as fuel the count of the roots and of the indexed
--   records: each record is queued once, so that this is enough.
--   The references of a record are given, and Graph/References is dedupeSortedObjectRefs, which drops the
--   pinned ones. It also says what a read of an object literal gives, since the index keeps its lists in
--   such literals: a name like `constructor` that a literal lacks is inherited, is no list, and stops a
--   loop. A record or a source named `__proto__` would replace a prototype; the index refuses it here
--   (`prototype_key`), so nothing is said of such images. Graph/Roots is isIntrinsicRootRecord, and
--   Graph/Queries the searches for outgoing and incoming references.
-- Value/Host is the values of the host language, with its numbers as a parameter, and Value/Scalars
--   models src/value/scalars.js: canonicalizeValue of such values.
-- Callable/TypeGrammar, Callable/Declarations and Callable/Fingerprint model
--   src/callable/type-grammar.js: the types of interfaces, the visit that refuses cycles, whose fuel is one
--   more than the number of declarations, and the walk over reachable declarations, whose fuel is the
--   number of references and one; both are proved to be enough.
-- Callable/BigEndian, Callable/Buffers, Callable/PrimitiveCodec, Callable/CompositeCodec and
--   Callable/Envelope model src/callable/composite-codec.js: what a DataView stores, Writer and Reader,
--   writeValue and readValue, whose first argument is the depth that is left of MAX_VALUE_DEPTH, and
--   the envelope. Callable/Typed says which values a type has.
-- Wasm/InstancePool models src/wasm/instance-pool.js: `exec` makes one step of the pool, and an acquire that
--   creates an instance is two of them, so that `run` covers every interleaving.
--
-- Base/Decimal writes a number with one more than the number as fuel, which exceeds the count of its
--   digits. Every other recursion is on a list, a nested Map, a JSON value or a tree.
--
-- Not modelled: network and process I/O, the WebAssembly engine and the host's cryptography, which the
-- program calls; the rest of the languages, the rest of the graph of images (bundles, branches,
-- provisioning), and the projects, which stand on the parts above; and what only renders errors as text.
mod Base
pub mod Authority
pub mod Object
pub mod Backend
pub mod Execution
pub mod Language
pub mod Graph
pub mod Support
pub mod Wasm
pub mod Value
pub mod Callable
