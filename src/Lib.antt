-- ===== src/Lib.antt =====
-- Reverso, a local gateway: clients that speak the Responses or the Anthropic Messages protocol are
-- served by several language-model backends. The development follows one request through the parts
-- that decide or transform; paths below are in src/reverso/.
--
-- Requests and features
-- Features/Responses: `ResponsesRequest.from_payload` (protocols/adapter.py) and `extract_features`
-- (protocols/feature_policy.py). Features/Table: `check_features`, on a capability table that is an
-- argument. Features/Anthropic: protocols/anthropic_feature_gate.py, its scan (`scan_...`), its strip
-- (`strip_...`) and its gate. Decoded JSON is a tree (Json), so the strip in place is a function.
--
-- Turns and streams
-- Responses/Store: `ResponseStore` (protocols/store.py), each method one step under the lock.
-- Responses/Generator: an asynchronous generator as the sequence of its yields and stores; `drain n`
-- is what the store holds once a client has taken n events and left.
-- Responses/Replay: `replay_turn` (protocols/replay.py) for a buffered turn. Responses/Incremental:
-- `replay_incremental` for a turn that is streamed while it is produced; its chunks and how they end
-- are arguments, and so is the adapter's `finalize`.
-- Responses/Prompts: the prompt of an input and the recorded input items (protocols/replay.py); what
-- `str` makes of a value that is no text is an argument.
-- Anthropic/Stream: protocols/anthropic_stream.py, which maps these events to the Anthropic grammar;
-- an upstream is a list of events and an ending, which is to stop or to raise.
--
-- Responses/Replay/Turns: the turns that both replays deliver.
--
-- Between the protocols
-- Anthropic/Requests and Anthropic/Replies: the two halves of protocols/anthropic_translate.py. Chat:
-- protocols/openai_chat.py, its requests (Chat/Requests) and its completions (Chat/Replies). Deepseek:
-- protocols/adapters/deepseek.py, its chat bodies (Deepseek), envelopes (Deepseek/Envelopes) and the
-- streamed ones (Deepseek/Streamed). A request goes from an Anthropic payload to Responses input items,
-- to chat messages; a completion goes back as output items, to a store and to a client. `json.dumps`,
-- `json.loads`, `str` on values that are no texts and the minted ids are arguments; each call of json
-- may fail as the source expects it to.
--
-- In front of the handlers
-- Routing: proxy/profile_routing.py, its model names (Routing/Models), workspaces (Routing/Workspace),
-- bodies (Routing/Bodies) and the middleware (Routing/Requests); a receive callable is the list of its
-- answers. Exposure: protocols/model_exposure.py, its profiles, selectors and context windows; the
-- environment is an argument. Copilot: protocols/copilot_models.py. Normalizer:
-- middleware/codex_responses_normalizer.py. Completion:
-- middleware/responses_sse_completion.py, its state passed from message to message. Think:
-- `StreamingThinkStripper` of proxy/utils.py, on a list of code points, its loop on fuel: a turn for
-- each code point, which Think/Bounds shows to be enough. Bytes: bytes, headers, the search in bytes and
-- decimals; Paths: the test of a path that the middleware share; the decimal of n is written on fuel
-- n + 1, one unit for each digit.
--
-- Wrapped: the messages of a reply with a status, for Wrapped/Errors
-- (middleware/x_gateway_error_envelope.py) and Wrapped/Models (middleware/codex_models_compat.py). Both
-- hold a reply back until its last body; their state is passed from message to message.
-- Wrapped/Framing: what a client reads of the headers of a body that was replaced. Stripped:
-- `_strip_text_fields` of middleware/responses_think_stripper.py; the stripper of a streamed text, of
-- which Think is one, is an argument whose state is passed on where the source shares the object.
-- Stripped/Deltas: the splitting of a long delta, on fuel for its chunks, one for each code point.
--
-- Client settings
-- Mutations: client_sync_mutations.py. Mutations has the states of a path and the calls of the operating
-- system, a record `Disk` over an unknown world, Mutations/Leaf the change of one path and the guard that
-- it may leave, Mutations/Group a group of changes and its rollback. Every call may fail at every time;
-- a call that only reads leaves the disk alone, no other process writes in between, and a path has no
-- link among its parents, so that a descriptor of its parent and its name stand for it. What is relied on
-- of the calls is Mutations/Laws, and Tests/Mutations has a disk that meets it. Claude:
-- `_remove_reverso_overrides` of claude_code_sync.py; the lines of a text are Claude/Lines.
--
-- The session daemon (daemon/)
-- Daemon/Sessions: the table of session_table.py. Daemon/Recycler: the sweep of recycler.py, as if no
-- request came in between its steps.
--
-- OpenRouter (protocols/adapters/openrouter/)
-- OpenRouter/Budget: the ledger of budget.py, in the fixed-point amounts of OpenRouter/Decimal.
-- OpenRouter/Grants: the capabilities of grants.py. OpenRouter/Policy: policy.py. OpenRouter/Identity
-- and OpenRouter/Runtime: the model ids and the admission of runtime.py, which asks the policy and
-- the grants. OpenRouter/Continuation: the typed chain of continuation.py.
--
-- Exceptions are values of Outcome with the class of the exception. Clocks, liveness callbacks, fresh
-- ids and tokens are arguments. Every loop is recursion on the data it goes through; the scan of
-- content blocks counts the nine levels that the source's depth cap leaves, and stops where it stops.
-- Numbers are unbounded, as Python's are; times and amounts stand on the integers, as ticks and as
-- units of 10^-18 dollars.
--
-- Not modelled: HTTP, subprocesses, logging and threads; the other adapters and their translations, the
-- source addresses of compressed requests, the daemon's processes, the events of a stream behind
-- responses_think_stripper.py, and of the tools that rewrite client settings all but the two above;
-- interrupts of the process inside a call of the operating system; Decimal's special values and its
-- rounding beyond 28 digits.
pub mod Prelude
pub mod Json
pub mod Outcome
pub mod Texts
pub mod Sse
pub mod Bytes
pub mod Paths
pub mod Copilot
pub mod Exposure
pub mod Routing
pub mod Completion
pub mod Normalizer
pub mod Think
pub mod Deepseek
pub mod Anthropic
pub mod Responses
mod Tests
pub mod Wrapped
pub mod Stripped
pub mod Claude
pub mod Mutations
pub mod OpenRouter
pub mod Features
pub mod Chat
pub mod Daemon
