-- ===== src/Lib.antt =====
-- zbplan plans a Dockerfile for a codebase: an agent proposes one, BuildKit builds it, and the run tries
-- again with the build's log until a build succeeds or the attempts are used up.
--
-- The parts, and the files that model them:
--   LogBuffer: internal/plantools/bounded_buffer.go, the log of a build (`write`, `to_string`).
--   Utf8, Cut: the rune cuts of pkg/zbplan/tool_output.go (`boundedPrefix`, `boundedSuffix`) and of
--     internal/plantools/files.go (`safeTextPrefix`), over the parts of unicode/utf8 that they use.
--   Preview: `boundedToolOutput` of tool_output.go, and the retry prompt of pkg/zbplan/prompt.go.
--   Store: `toolOutputStore` of tool_output.go. `save_call` is `saveCall`, and so on by name. The maps
--     are functions; Store.Entries has the abstract view, a list of numbered entries, oldest first.
--   ToolCalls: the middleware around each tool call, and the rewriter of the message history.
--   ReadOutput: the tool `read_tool_output`, which pages through an output.
--   Extract: `extractDockerfile` of prompt.go, with its two regular expressions written out.
--   Run: `Run` and `runBuildOnce` of pkg/zbplan/zbplan.go, and `RunBuild` of
--     internal/plantools/builder.go, over an environment for what runs outside. Run.Counted counts the
--     calls of it.
--   Registry: the allowlist of pkg/registryutil/registryutil.go.
--   Policy: pkg/builder/policy.go, the bounds on a Dockerfile and the source policy of a solve.
--   Paths: the parts of Go's `path` that are used (`Clean`, `Dir`, `Base`, `Ext`).
--   Workspace: internal/workspace/workspace.go, which paths are visible.
--   Context: pkg/builder/context.go, the filter of the build context.
--   Files: internal/plantools/files.go, the confinement of paths, and the tools `list` (Files.Directory),
--     `read` (Files.Read), `glob` (Files.Search.Find), `grep` (Files.Search.Lines) and `tree`
--     (Files.Search.Outline), over a file system that is a parameter. Files.Walk is `filepath.Walk` over a
--     tree of entries; Files.Glob is `matchGlob`, with its table of states.
--   Gather: goroutines that look at their context and send to one buffered channel, the close behind them
--     and the loop that receives, as a step relation; `ListImages` and `searchGHCR` use it.
--   Finder: pkg/registryutil/images.go (Finder.Images) and tags.go (Finder.Tags), with both caches.
--   RegistryTools: internal/plantools/registryutil.go, the tools `list_images` and `list_tags`.
--   Templates: internal/plantools/dockerfile_templates.go, the templates and the search in them.
--   Solve: pkg/builder/builder.go, from the options of a build to the request to BuildKit.
--   Models: pkg/zbplan/model.go, the choice of a chat model from the environment.
--   BuildEnv: pkg/buildenv/buildenv.go, the rewriting of Dockerfile text, and the choice of a frontend
--     (BuildEnv.Frontend).
--   Strings: the parts of Go's `strings` that these use. Prelude: shared names and lemmas.
--   Tests: the theorems at concrete inputs.
--
-- A run (`Run.run`) normalizes the allowlist (Registry), builds with a bounded log (LogBuffer), makes
-- prompts (Preview, and the catalog of Store), and takes the Dockerfile from the reply (Extract); the
-- agent's tool calls go through ToolCalls, which keeps outputs in Store and rewrites the history from it.
-- A solve (Solve) is under the policy of Policy, made from the same allowlist, after the Dockerfile met
-- the bounds of Policy. `list_tags` normalizes that allowlist again before it asks the finder, and the
-- walks of `glob`, `grep` and `tree` decide by Workspace what they show, as `read` and `list` do.
--
-- Text is a list of byte values. Numbers are natural; `nextRef` is a uint64 and wraps at 2^64, the other
-- integers are sums of the lengths of strings in memory, or of sizes of files that are compared with a
-- bound first, and do not overflow. Loops are structural: over
-- the order of the store, over the rest of a text, over a tree of entries, or over the attempts that are
-- left. Fuel is
-- used where a walk goes up by `path.Dir`, which makes a path shorter, so its length is enough; and in
-- `read_pages`, a loop of a reader: more than the bytes that are left is enough, and is asked.
--
-- Not modelled: logging, locks (each method holds its lock throughout), the deadline of a context, and
-- the sharing of one request by calls at the same time (`singleflight`), which come one after the other;
-- JSON, HTTP, Unicode case and space tables, regular expressions, `filepath.Match`, `sort.Slice` (what it
-- compares by is modelled), fuzzy ranking, the LRU caches, BuildKit, its parser and its selectors, the registry client and the agent
-- library, which are parameters; `Prepare` of buildenv, which is a parameter of Solve, and `secretID`;
-- the options of `NewFinder`; the commands.
pub mod Prelude
pub mod LogBuffer
pub mod Strings
pub mod Registry
pub mod Policy
pub mod Paths
pub mod Workspace
pub mod Files
pub mod Context
pub mod BuildEnv
pub mod Utf8
pub mod Cut
pub mod Preview
pub mod Store
pub mod Gather
pub mod Finder
pub mod RegistryTools
pub mod Templates
pub mod ToolCalls
pub mod Solve
pub mod Models
pub mod ReadOutput
pub mod Extract
pub mod Run
pub mod Tests
