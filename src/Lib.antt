-- ===== src/Lib.antt =====
-- Verification library for relkit: signed software updates, from the documents that a publisher
-- signs to the decision that a client takes.
--
-- The program. A publisher keeps one index for each product and channel: a list of versions, each
-- with the lowest code from which it may be installed. The index is checked, signed and put on
-- mirrors. A client fetches it, verifies the signature, refuses sequences that are older than what it
-- has seen, selects the next version, and the artifact of that version that suits it.
--
-- The parts, and the files that model them:
-- - Rup: the documents of proto/rup/v2/objects.proto, as records with the fields' names, and
--   `SelectorsToMap` of internal/model/model.go.
-- - Chain: internal/chain/chain.go. `select_next_target` is `SelectNextTarget`,
--   `resolve_upgrade_path` is `ResolveUpgradePath`, `find_head` is `FindHead`, `reaches_head` is the
--   closure `reachesHead`. Chain.Reachability has `ValidateReachability` and
--   `UnreachableStartCodes`. A legal hop (`Hop`) and a sequence of them (`Hops`) are the
--   specification, and know nothing of the order in which the code looks for targets.
-- - Selectors: internal/selectors/selectors.go, `MatchesClientApply` and `SelectArtifactPreferring`.
-- - Sdk.State: internal/sdk/state.go and internal/sdk/policy.go, what a client remembers and when it
--   may check again. Sdk.Ranking: internal/sdk/preference.go, the order of sources.
-- - Wire: a parameter for ed25519, SHA-256 and the protobuf runtime. Envelope:
--   internal/envelope/envelope.go over it.
-- - Inprocess: internal/inprocess/updater.go. A step is a function from a `World` (what is
--   remembered, and how many requests were made) to a result and a `World`; the network is any
--   function from the number of requests and the URL to a response. Inprocess.Sources has
--   `resolveIndexPlan` and `loadDirectory`, Inprocess.Target has `fetchTarget`, Inprocess.Check has
--   `checkIndex` and `FetchExact`, Inprocess.Notice has `CheckFallback`, Inprocess.Force has
--   `CheckForce`. `saveState` writes out what is remembered and is no step. Inprocess.Triples has the
--   rules by which the theorems follow the steps.
-- - Library: internal/updater/library.go, the versions that are installed side by side.
--   Library.Changes has `deleteInstalled`, `switchActive` and `rollbackActive`; each returns its error
--   and the tree after it, and takes what the file system makes of a removal or of a new
--   pointer as an argument.
--   Library.Steps serves any sequence of them.
--   Library.Prune has `pruneVersions` of internal/updater/apply.go.
-- - Store: cmd/relkit-store/gc.go and docs_readers.go, the collection of files that no published index
--   needs. The files are a list, with what the system refuses to read or remove as data of a file;
--   Store.Keys has `localKeyFromURL` and the readers, Store.Live the keys that `gcOnce` keeps,
--   Store.Sweep the removals, at one instant, and `runGC`. Store.Referenced says independently what
--   is needed. `net/url` and the decoders are parameters.
-- - Plans: internal/updater/plans.go, and of check.go, store.go and filename.go what plans need. A disk
--   is what the engine finds in its data directory. Plans.Build has `reusablePlan`, `refreshPlan` and
--   `buildPlan`, with the HMAC and the bytes of a plan as parameters; Plans.Sweep has `sweep` and
--   `sweepSessions`, which take the instant as an argument; Plans.Filename has
--   `ValidateArtifactFilename` and `joinUnder` on a system whose separator is `/`, with
--   `filepath.Rel` as a parameter.
-- - Semver: internal/vnext/catalog/semver.go. The results -1, 0 and 1 are the constructors of
--   `Ordering`.
-- - Publish: of internal/publish/publish.go and internal/model/model.go the reading of the current index
--   and `NewIndex`; Publish.Unpublish has `unpublishOnBackends` up to the commit. A backend is what it
--   answers for the key of the one index.
--   Publish.CasGc has internal/publish/cas_gc.go on one backend.
-- - Directory: internal/directory/directory.go; `backends.Create`, `url.Parse` and the keys of the
--   configuration are fields of its Setup.
-- - Throttle: internal/updater/policy.go, how often the engine checks. Selectors.Duplicates:
--   `FindDuplicateSelectors`.
-- - Prelude: shared tests, lists, integers, strings, maps and sorting.
-- - Examples: runs of the definitions, and the theorems applied to them.
--
-- Conventions. A Go `int` or `int64` is an integer; where the code computes with a sequence, in
-- `NextSequence`, the sum wraps as 64 bits do (`wrap_int`). Elsewhere codes and sequences are only
-- compared. Instants and durations are nanoseconds without the saturation of `time.Duration`. A
-- pointer that may be nil is an `Option`, a byte string a list of bytes, a Go map an association list
-- whose lookup takes the first entry. A `range` over a map is a pass over that list, and what is
-- stated of it does not depend on the order. An error is a constructor for its message. `sort.Slice`
-- is a stable sort, where Go leaves the order of equal elements open: the results that depend on it
-- ask for distinct ids or speak of the comparison only. Where `ed25519` panics on a key of the wrong
-- length, the parameter returns some Boolean.
--
-- A time that is missing reads as the epoch, as `AsTime` has it. `TrimSpace`, `ToLower` and `ToUpper`
-- are those of ASCII text. Messages that are printed are left out.
--
-- Fuel. Only the loop of `ResolveUpgradePath` takes fuel, one round more than the index has entries.
-- Each hop goes up to the code of a listed version, so that fewer versions are above; hence it is
-- enough for each index.
--
-- Not modelled: the network, files and clocks, of which a check only sees the answers; a walk of the
-- store's files that fails part way; the download
-- of an artifact; of the update engine the handlers, the apply pipeline and the progress window; of
-- publishing the upload of releases and the web documents; the HTTP servers and command lines of
-- cmd/; and of internal/vnext all but versions: file formats, templates and operators.
pub mod Prelude
pub mod Rup
pub mod Chain
pub mod Selectors
pub mod Sdk
pub mod Wire
pub mod Envelope
pub mod Inprocess
pub mod Library
pub mod Throttle
pub mod Store
pub mod Semver
pub mod Plans
pub mod Publish
pub mod Directory
pub mod Examples
