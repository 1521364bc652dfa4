-- ===== src/Lib.antt =====
-- Kit composition, as the Go packages of the repository implement it: how capability names and
-- versions are read, ordered and compared, when a set of constraints can be met, when a set of kits
-- is coherent, in which order it composes and what a lock records of it; how the layers of kits are
-- listed, extracted and stacked into file systems, and when two kits collide; and how a conformance
-- run reports what it found.
--
-- A set of kits goes through the parts in this order: Resolve judges it by the rules of Version, Lock
-- compares the resolution with the record of the last one by the gate of Surface, Assembly lists
-- the layers of its kits within limits, extracts them by Overlay and looks for collisions, and Image
-- composes their configs.
--
-- Parts and files (paths from the repository's root).
--
-- Version: spec/version.go, the rules that every other part uses to judge a provided version
-- against a required one.
--   Version/Order: splitVersion, allDigits, compareDigits, CompareVersions, canonicalVersion,
--     nextVersion, versionPattern, parseVersion, IsVersion. Its children say what the order is:
--     Digits (digit strings and their values), Linear (the class of versions whose segments are
--     digit strings or the mark "-", on which the order is lexicographic), Flip, Valid (what the
--     version pattern says of a text), Canonical, Successor, and Cycle (where it is no order).
--   Version/Error: ConstraintOp, and each error message as a constructor.
--   Version/Name: the name patterns, capabilityNameError, NormalizeCapabilityName,
--     DisplayCapabilityName, IsDerivedProvide; Normal has the laws of the short and long forms.
--   Version/Constraint: Provide, Constraint, Require, constraintHolds, Satisfies,
--     simplifyConstraints, checkConstraintsSatisfiable. A loop over the constraints is a recursion
--     on the list: collect_pin, check_pin, narrow, first_pin, tightest. Its children: Coherent
--     (three comparisons in the linear class), Range and Pins (what the loops keep), Satisfiable,
--     Rewriting, Tightest and Simplify, and Refused (sets that are refused though a version meets
--     them).
--   Version/Require: ParseProvide, ParseRequire, splitRequireName, parseConstraints,
--     cutConstraintOp, CanonicalRequire; Fuel and Accepted say that the loop ends and what it
--     returns.
--   Version/Package: PackageVersion, with its three patterns as readers.
--   Version/Tag: TagVersion, LatestVersion.
--
-- Resolve: resolve/resolve.go, which judges a set of kits by those rules and orders it.
--   Resolve/Kit: Unit (Kit here), the descriptor's fields that are read, provider. A pointer to a
--     unit is its address.
--   Resolve/Reference: VersionFromReference, EffectiveProvideVersion, and what they use of net/url;
--     Resolve/Tagged says what a tagged image reference carries.
--   Resolve/Problem: each problem message as a constructor.
--   Resolve/Provides: providesIndex, satisfiedBy, othersProviding. The map from names to providers
--     is the list of all providers, and reading an entry of the map is a filter.
--   Resolve/Owners: checkOneWorkload, checkOneProviderPerName, checkOneCredentialOwner.
--   Resolve/Check: checkRequires, checkIntegrates, checkConflicts, and the groups that are left.
--   Resolve/Order: the sort of `order` over a list of edges. Its children: Members (units by
--     address), Pending (providers that are not placed yet), Release (what the inner loop keeps),
--     Choice (what a composition order is, and which unit goes next), Loop, Composed.
--   Resolve/Run: the edges of a set, resolve, Resolve, ResolvePartial, Dependencies, Ordered.
--   Resolve/Met, Single, Unshared, Coherent: what each check amounts to, and all of them together.
--   Resolve/Edges, Precede, Sound, Layers: what a resolution promises.
--
-- Surface: spec/surface.go, the gate that compares the permissions a kit asks for with those that
-- were granted.
--   Surface: Surface, Widening, missingFrom, normalized, stripPort.
--   Surface/Http: NetworkEntry, EntryMethods, EntryPaths, entrySurface, parseHTTPEntry, hostCovers,
--     pathPatternCovers, httpWidenings, httpDenyRemovals, completeHTTPGrants, httpEntryHost.
--   Surface/SshAgent: sshDestinationHost and sshAgentWidenings of spec/ssh_agent.go.
--   Surface/Diff: DiffWidenings; Within says when it is silent, Unchanged that it is so on an
--     unchanged surface. SurfaceOf is not modelled: surfaces are arguments.
--
-- Packages: DerivedProvides of spec/packages.go, the entries that the platforms of a kit agree on.
--   Its two maps are functions with a list of their keys. Fold says what one name sees of the loops,
--   Unanimous when it is published. ReadDpkgStatus and ReadApkInstalled are not modelled: listings
--   are arguments.
--
-- Build: internal/version/version.go, what a binary says it was built from: fill, compute, recorded,
--   releaseTag, isPseudoVersion, Tag, display, abbreviate. Pseudo says which versions count as
--   derived from a commit, Recorded what is read of the settings of a build.
--
-- Lock: resolve/lock.go: LockFrom, ParseLock, Gate, VerifyRecreate. Recreated says which set a lock
--   accepts, Gated when the gate is silent.
--
-- Overlay: internal/overlayfs/fs.go, the file system that extracted image layers expose.
--   Overlay: fsNode as trees, FS, Layer; FilePath has what the code uses of Go's package path.
--   Overlay/Lookup: lookup, hostLookup, dir, lstat. Overlay/RootPath: rootPath, crossesSymlink,
--     walkLinks, walkLink; its child Ends says that it ends.
--   Overlay/Extract: extract, Add; Parents has mkparent and inheritDirInfo. Overlay/Stack: stack,
--     Apply; its child Rule has the rule of an overlay file system, to which Merged compares them.
--     Walked, Ordered and Sorted say that both keep the names of a directory in order, Names what a
--     lookup is after a change.
--   Overlay/Expose: DirStat, DanglingSymlinks, Walk; Visits and Visited say what Walk calls back on.
--
-- Inventory: assemble/inventory.go, what a layer's archive lists: ReadInventory, readEntry and the
--   functions that call it, with Before; Layers has ReadLayerEntries, with Final; Collisions has
--   CheckCollisions, with Exclusive.
--
-- Assembly: fetch/assemble_inventory.go (the limits, the cache, inventoryKits; Sizes, Charged and
--   Components say what is counted) and fetch/assemble_collisions.go. Extracted has the file system
--   of a kit, also that of overlayModel in tck/kit/overlay_fs.go; Ownership has
--   checkFileCollisions, and Together says what its walk compares.
--
-- Image: assemble/assemble.go, Merge: the layers and the config of a composed image; Entries has
--   what it does with variables and labels. Delta has configDelta of cmd/frontend/diff.go, which
--   makes the config that a mixin brings. Layered, Values, Valued, Kept and PathMerged say what a
--   composed image has.
--
-- Report: tck/report. Report has report.go; Palette, Words and Render have render.go,
--   Render/Written its errWriter. Tally and Roster say what the tally counts, Wrapped what wrap keeps.
--
-- Speclink: tck/speclink/speclink.go, where the specification's pages state a requirement; Headings
--   has what one line says, Indexed, Linked and Resolved say where a requirement
--   leads.
--
-- Base holds what the parts share: Boolean tests, three-way comparison, texts with what the code
-- uses of Go's package strings, and results with an error type.
--
-- Texts are lists of Unicode code points; a Go string is taken to be valid UTF-8, where bytewise
-- comparison is comparison of code points. In Overlay, Inventory and Assembly, where a name's length
-- is bounded and a name need not be UTF-8, a text is a list of bytes. A regular expression is a
-- recogniser written for it. An error is a constructor with the values that its message shows, and
-- the words are left out, but in Inventory/Collisions and Report.
--
-- Fuel: the loop of parseConstraints runs on the length of its text. Every round drops an operator
-- and what stands before the next comma, so the text gets shorter; the model's own error for fuel
-- that runs out is none of the outcomes. The loop of `order` runs on one more than the number of
-- units: every round places a unit that was not placed. walkLinks runs on one more than the length
-- of its path, and recurses on shorter ones; the loop of rootPath runs on 257 passes, since a pass
-- that does not end expands a symlink and more than 255 of them are refused. The symlinks that a
-- lookup may still expand are a number, 40 at first, on which it recurses.
--
-- Units that the caller passes twice under one pointer are left aside by the theorems on `resolve`,
-- which ask for distinct addresses. What decoding a credential's configuration gives is part of a
-- unit in the model.
--
-- Arguments that stand for other code: the JSON decoding of a lock, the surface of a descriptor, a
-- unit's image and argument values (Lock); the members of an archive (Inventory); the stream of a
-- layer, with its reads, sizes and digests (Assembly); the writer (Report/Render/Written); the pages
-- and Go's tables of letters, digits and lower case (Speclink).
--
-- Not modelled: decoding of YAML and JSON, capability groups, merging, expansion and validation of
-- descriptors, the builds of the frontend, the registry client, the serialization of images, and the
-- checks of the conformance kit with its sandboxes and adapters, which read and write files, images
-- and network streams. Contexts, progress reports and caches that do not change a result are left out.
pub mod Assembly
pub mod Base
pub mod Build
pub mod Image
pub mod Inventory
pub mod Lock
pub mod Overlay
pub mod Packages
pub mod Report
pub mod Resolve
pub mod Speclink
pub mod Surface
pub mod Version
