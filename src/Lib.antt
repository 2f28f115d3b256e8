-- ===== src/Lib.antt =====
-- The privacy core of the recommendation engine: what a user's consent allows, which items of a
-- source and which evidence may become an interest signal, where derived state may be kept, how
-- signals are recorded and retracted, and what profile they add up to; and the graph of the
-- nodes that occur together. Everything starts from values that are unknown at run time: the
-- engine checks the shape of policies, requests, manifests, signals and events itself, and so
-- does the model.
--
-- The parts, and how they meet:
--   Prelude       helpers: lists, options, results with a thrown error, string maps, integers,
--                 sorting, lists that hold throughout or are cut to a length, closed vocabularies
--                 of strings.
--   Js            the values of the source's language and its string functions. Js/Host is the
--                 engine: floating-point numbers, Date.parse and localeCompare are its operations,
--                 and a parameter of what uses them. Js/Text holds
--                 src/recommendation/control-characters.ts.
--   Consent       src/recommendation/consent.ts. Words: its constant arrays. Request: the policy and
--                 the request, valid_policy is isValidPolicy and valid_request is isValidRequest.
--                 Evaluate: evaluate is evaluateRecommendationConsent. Permits and Decisions: its
--                 contract. Deletion: markRecommendationConsentForDeletion and
--                 createRecommendationDerivedDataDeletionIntent. Asked and Revocation: their
--                 laws.
--   Enforcement   src/recommendation/consent-enforcement.ts. Gate: with_consent is
--                 withRecommendationConsent, which evaluates a consent, has it audited, and only then
--                 runs an operation. Deletion: execute_deletion is
--                 executeRecommendationDerivedDataDeletion. The audit sink, the operation and the
--                 deleter are functions on a world W, and an awaited call is their order.
--   Storage       Authority: src/recommendation/storage-authority.ts. Placement and Evaluate:
--                 src/recommendation/state-placement-policy.ts; evaluate_placement is
--                 evaluateRecommendationStatePlacement, assert_manifest is
--                 assertRecommendationStateStorageManifest. Contract: where state may be kept.
--   Signals       Policy and Fields: src/recommendation/public-signal-policy.ts, which uses the
--                 authority of Storage and the event of Consent. Words, TargetKey and Signal:
--                 src/recommendation/interest-signal.ts; normalize_signal is
--                 normalizeRecommendationInterestSignal, which requires the policy.
--   Runtime       Hash: sha256Hex of src/runtime/hash.ts, on 32-bit words with their wrap-around.
--                 HashLaws: its loop. Padding: the message that it cuts into blocks.
--   Ledger        src/recommendation/signal-ledger.ts. Canonical: stableStringify. Event:
--                 normalizeEvent, which normalizes the signal of an apply event, and the digest.
--                 State: the three maps as dictionaries, ingest, clear. Batch: the options,
--                 ingestBatch, listActiveSignals and snapshot. Invariant, Laws, Replay, Retraction,
--                 Tally, BatchLaws and Listing: the laws of the ledger and of sequences of ingests.
--                 Again: the signal of an event, normalized again.
--   Profile       src/recommendation/profile-store.ts, createInMemoryRecommendationProfileStore. Entry:
--                 entries and what a signal does to one. Store: pruneExpiredEntries,
--                 trimSortedEntries, snapshots and the loop of ingestSignals. Operations:
--                 prepareSignalBatch, which normalizes the signals, ingestSignals, readProfile and
--                 deleteProfile on the map of the profiles. Invariant: what a well-formed store is.
--                 Totals, Trim, Dropped, Prune, Ingest, Batch and Snapshot: the steps of an ingest.
--                 Laws, Reads, Runs and Apart: the operations, and any sequence of them.
--   Sources       src/recommendation/source-adapter.ts: Timestamp is parseStrictRfc3339Timestamp, Item
--                 the checks and the normalization of items, requests and results, Adapter is
--                 readRecommendationSourceAdapter. Gated: readRecommendationSourceAdapterWithConsent
--                 of src/recommendation/consent-gated-source-adapter.ts, which evaluates the consent
--                 for every item that an adapter returns and has it audited. Signal:
--                 createRecommendationInterestSignalFromSource of
--                 src/recommendation/interest-signal.ts. Laws, GatedInput, GatedLaws,
--                 SignalLaws, Moment and TimestampLaws: their laws.
--   Graph         Cooccurrence and Views: src/graph/cooccurrence-graph.ts, its adjacency as a map of
--                 maps, and enforceBounds of src/graph/bounded-graph.ts. Trim, Removal, Bounds and
--                 Deletion: their laws.
--   Tests         runs on concrete inputs, with an engine whose numbers are natural numbers.
--
-- Conventions. An object is the list of its own properties, and a check of an unknown value returns
-- the typed record that it establishes. A record that the source builds from checked parts is that
-- record; frozen copies equal what they copy. A function that throws returns the error as a value,
-- and stateful code passes its state on. A text is a list of code points, so that lone surrogates
-- are not represented; lengths count UTF-16 units. A Map is an association list in insertion order.
-- An option whose type is not checked at run time has a value of its type. A time in milliseconds
-- is an integer. A Date.parse that is not a number has no integer.
--
-- Fuel. The block loop of the hash runs on as many steps as the padded text has bytes, and each of
-- its rounds takes 64 of them. Every other recursion is structural.
--
-- Not modelled: the persistence of profiles, candidates and their eligibility, serving, the
-- protocol adapters, label processing, catalogues, embeddings and the nearest-neighbour index,
-- communities of a graph, scoring, local preferences, dataset loading and URL safety. Their
-- state does not enter the parts above, and much of them is I/O or computes with floating-point
-- numbers.
pub mod Prelude
pub mod Js
pub mod Consent
pub mod Enforcement
pub mod Storage
pub mod Signals
pub mod Runtime
pub mod Ledger
pub mod Profile
pub mod Sources
pub mod Graph
pub mod Tests
