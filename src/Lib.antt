-- ===== src/Lib.antt =====
-- Causalontology: the Go binding, version 4 (bindings/go/v4/causalontology).
--
-- The binding canonicalizes content objects into identifiers, signs and verifies provenance
-- records, checks both against semantic rules, and keeps them in an in-memory store whose views
-- combine them. A Store calls canonical.go for identifiers, signing.go for signatures and
-- semantics.go for the rules; canonical.go calls jcs.go for the canonical text.
--
--   Json       json.go: the values that `any` holds, maps as association lists of which the first
--              entry for a key counts, AsFloat, CopyMap, stringList
--   Sets       semantics.go: slices and sets of texts, sameStringSet
--   Jcs        jcs.go: SerializeJCS, with Numbers, Quote, Sort and the order of keys
--   Canonical  canonical.go: IdentityFields, InferKind, IdentityBearing, Canonicalize, Identify
--   Signing    signing.go: KeypairFromSeed, SignRecord, VerifyRecord
--   Semantics  semantics.go, a module for each group of rules: Windows (rules 4 and 20), Conflict
--              (rule 6), Refinement (rule 3), Paths (pathExists), Bridges (BridgeClosure), Rules
--              (ValidateSemantics), Hierarchy (HierarchyConsistent), Strata (ClassifyCRO,
--              EndpointsMixed, SkipGaps) with Strata/Seams (BridgeWellformed, SeamWellformed,
--              SeamHome), Tokens (conduits, states, tokens), Cycles (HasCycle)
--   Store      store.go: State (Store, NewStore), Writes (Put, PutRecord, ForceMergeRecord),
--              Queries (Lineage, AssertionsAbout, EnrichmentsAbout), Cycles (findCycleRecords),
--              Taxonomy (ActiveTaxonomyEdges, wouldCycle), Words (canonLabel, normAlias), Views (Get,
--              Resolve), Gaps (Gaps), Invariant (what holds of every store)
--   Tests      the theorems at concrete inputs, and runs
--
-- State. A Store is a record of its maps and orders; an operation takes it and returns it anew
-- beside its result. An error is a constructor of Error, or a rejected write with its reason.
-- CopyMap is shallow and no operation writes into what it was handed, so maps are values here.
--
-- Parameters. float64 is a bit pattern with the operations of strconv and the machine as the record
-- Floats; ed25519, hex and the digest are the record Crypto, with CryptoLaws where a theorem needs
-- them; the panics of KeypairFromSeed and SignRecord, on a seed or a secret of another length than
-- crypto/ed25519 documents, are `none`; ValidateSchema is the field validate_schema of Env. The lower case, the words and the
-- printing of a text, of strings and fmt, are the record Words.
--
-- Fuel. The loops of pathExists, BridgeClosure, Lineage, HasCycle, findCycleRecords and
-- ActiveTaxonomyEdges run on fuel computed from their input, with `none` for fuel that ran out: one
-- unit for each edge or bridge that can be pushed, each link of a chain, each node that a search can
-- mark, or each record that can be removed.
--
-- Order. Where the code ranges over a Go map, whose order is not fixed, the model takes the order
-- of the list that stands for it.
--
-- Not modelled: decoding of JSON text and files, embedded schema files and the schema validator,
-- and the conformance runner.
pub mod Prelude
pub mod Sets
pub mod Json
pub mod Jcs
pub mod Canonical
pub mod Signing
pub mod Semantics
pub mod Store
pub mod Tests
