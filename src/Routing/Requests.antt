-- ===== src/Routing/Requests.antt =====
-- `ProfileRoutingMiddleware.__call__` of profile_routing.py. The method of an ASGI scope is ASCII. The
-- calls of json and the decodings are arguments; one source of messages is read by one reader.
use Prim.Native.Char.{code}
use mathlib.Core.Path.{subst, sym, ap, ◌∙◌}
use reverso_llm.Prelude.{
  ℕ, ◌-◌, String, Bool, true, ◌||◌, ◌&&◌, Option, none, some, List, [], ◌∷◌, ◌++◌, ◌≡◌, refl,
  if◌then◌else◌, ◌==◌, text_key, leb, length,
}
use reverso_llm.Json.{Json}
use reverso_llm.Outcome.{Outcome, ok, raised, ◌>>=◌, bind_inversion}
use reverso_llm.Bytes.{
  Bytes, ascii, bytes_eq, Header, without_content_length, content_lengths,
  content_lengths-without_content_length,
}
use reverso_llm.Bytes.Decimal.{decimal, read_digits, read_digits-decimal}
use reverso_llm.Routing.Models.{ProfilePath, split_profile_path}
use reverso_llm.Routing.Bodies.{Message, Read, complete, disconnected, waiting, read_body}
use reverso_llm.Routing.Workspace.{
  workspace_from_codex_turn_metadata, workspace_from_body, rewrite_body_model,
}

-- The entries of the scope that the middleware reads or writes.
pub record Scope : Type 0 where
  pub type : String
  pub method : String
  pub path : String
  pub raw_path : String
  pub headers : List Header
  pub reverso_profile : Option String
  pub reverso_split_visible_deltas : Bool

-- The receive callable that the application gets.
pub data Receive : Type 0 where
  source : List Message → Receive
  replay : Bytes → List Message → Receive
  always_disconnect : Receive

-- A call of the application, with the value of `CURRENT_PROFILE_WORKSPACE` during it.
pub record Call : Type 0 where
  pub scope : Scope
  pub receive : Receive
  pub workspace : Option String

-- No call yet while the body is awaited.
abbrev pub Routed : Type 0
Routed = Outcome (Option Call)

is_write : Bytes → Bool
is_write method =
    bytes_eq method (ascii "POST")
    || bytes_eq method (ascii "PUT")
    || bytes_eq method (ascii "PATCH")

abbrev pub upper_byte : ℕ → ℕ
upper_byte c = if leb b'a' c && leb c b'z' then c - 32 else c

abbrev pub upper : String → Bytes
upper String.[] = []
upper (String.◌∷◌ c s) = upper_byte (code c) ∷ upper s

-- method.upper() in {"POST", "PUT", "PATCH"}
unfoldable pub has_body : String → Bool
unfolding is_write
has_body method = is_write (upper method)

abbrev or_else : Option String → Option String → Option String
or_else none w = w
or_else (some v) w = if v == "" then w else some v

-- The scope of a profile's request.
abbrev pub profile_scope : ProfilePath → Scope → Scope
profile_scope p scope = record scope {
  path = p.rewritten_path;
  raw_path = p.rewritten_path;
  reverso_profile = some p.profile;
  reverso_split_visible_deltas = true;
}

unfoldable pub headers_with_content_length : List Header → ℕ → List Header
headers_with_content_length headers n =
    without_content_length headers ++ (ascii "content-length", decimal n) ∷ []

-- The call with a rewritten body.
abbrev rewritten_call : Scope → ProfilePath → Option String → Bytes → List Message → Call
rewritten_call scope p workspace body rest = record {
  scope = record (profile_scope p scope) {
    headers = headers_with_content_length scope.headers (length body);
  };
  receive = replay body rest;
  workspace = workspace;
}

module _ (loads : Bytes → Outcome Json) (loads_text : String → Outcome Json) (dumps : Json → Bytes)
    (decode : Bytes → String) where
  -- A request that is sent on with its own path, once its body is read.
  direct : Scope → Option String → Read → Routed
  direct scope metadata waiting = ok none
  direct scope metadata (disconnected rest) =
      ok (some (record { scope = scope; receive = always_disconnect; workspace = none }))
  direct scope metadata (complete body rest) = do
    named ← workspace_from_body loads_text loads body
    ok (
        some (record {
          scope = scope;
          receive = replay body rest;
          workspace = or_else named metadata;
        }))

  -- A profile's request with a body that is rewritten.
  sent_on : Scope → ProfilePath → Option String → Bytes → List Message → Routed
  sent_on scope p metadata body rest = do
    named ← workspace_from_body loads_text loads body
    let workspace = or_else named metadata
    body' ← rewrite_body_model loads dumps body p.profile workspace
    ok (some (rewritten_call scope p workspace body' rest))

  routed : Scope → ProfilePath → Option String → Read → Routed
  unfolding sent_on
  routed scope p metadata waiting = ok none
  routed scope p metadata (disconnected rest) = ok (
      some
        (record { scope = profile_scope p scope; receive = always_disconnect; workspace = none }))
  routed scope p metadata (complete [] rest) =
      ok (
        some (record { scope = profile_scope p scope; receive = replay [] rest; workspace = none }))
  routed scope p metadata (complete (c ∷ body) rest) =
      if has_body scope.method
      then sent_on scope p metadata (c ∷ body) rest
      else ok (
          some (record {
            scope = profile_scope p scope;
            receive = replay (c ∷ body) rest;
            workspace = none;
          }))

  by_path : Scope → Option String → Option ProfilePath → List Message → Routed
  unfolding direct routed
  by_path scope metadata (some p) messages = routed scope p metadata (read_body messages)
  by_path scope metadata none messages =
      if has_body scope.method
      then direct scope metadata (read_body messages)
      else ok (some (record { scope = scope; receive = source messages; workspace = metadata }))

  unfoldable pub call : Scope → List Message → Routed
  unfolding by_path
  call scope messages =
      if scope.type == "http"
      then (workspace_from_codex_turn_metadata loads_text decode scope.headers
          >>= (λ metadata. by_path scope metadata (split_profile_path scope.path) messages))
      else ok (some (record { scope = scope; receive = source messages; workspace = none }))

-- A replayed body under a content-length that is its own, and under no other.
unfoldable pub IsFramed : Call → Type 0
IsFramed c =
    (body : Bytes) × (rest : List Message) × (c.receive ≡ replay body rest)
    × ((value : Bytes) × (content_lengths c.scope.headers ≡ value ∷ [])
        × (read_digits 0 value ≡ length body))

rewritten_call-IsFramed :
    (scope : Scope) (p : ProfilePath) (workspace : Option String) (body : Bytes)
    (rest : List Message)
    → IsFramed (rewritten_call scope p workspace body rest)
unfolding IsFramed headers_with_content_length content_lengths
rewritten_call-IsFramed scope p workspace body rest = (
  body,
  rest,
  refl,
  (
    decimal (length body),
    content_lengths-without_content_length scope.headers _,
    read_digits-decimal (length body),
  ),
)

called : Call → Routed → Call
called c (ok (some d)) = d
called c (ok none) = c
called c (raised _) = c

module _ (loads : Bytes → Outcome Json) (loads_text : String → Outcome Json) (dumps : Json → Bytes)
    (decode : Bytes → String) where
  sent_on-IsFramed :
      (scope : Scope) (p : ProfilePath) (metadata : Option String) (body : Bytes)
      (rest : List Message) (c : Call)
      → sent_on loads loads_text dumps decode scope p metadata body rest ≡ ok (some c)
      → IsFramed c
  unfolding sent_on called
  sent_on-IsFramed scope p metadata body rest c h =
      let (named, _, h') = bind_inversion (workspace_from_body loads_text loads body) _ h in
      let (body', _, h'') =
        bind_inversion (rewrite_body_model loads dumps body p.profile (or_else named metadata)) _
          h' in
      subst IsFramed (ap (called c) h'')
        (rewritten_call-IsFramed scope p (or_else named metadata) body' rest)

  call-sent_on :
      (scope : Scope) (p : ProfilePath) (first : ℕ) (body : Bytes) (messages rest : List Message)
      → scope.type ≡ "http"
      → has_body scope.method ≡ true
      → split_profile_path scope.path ≡ some p
      → read_body messages ≡ complete (first ∷ body) rest
      → call loads loads_text dumps decode scope messages ≡ (
          workspace_from_codex_turn_metadata loads_text decode scope.headers >>= (λ metadata.
            sent_on loads loads_text dumps decode scope p metadata (first ∷ body) rest))
  unfolding call by_path routed
  call-sent_on scope p first body messages rest http write path read =
      rw (http, path, read, write) refl

  -- A profile's request with a body: when the application is called, it is given a replayed body, and
  -- the one content-length of its headers, whatever the client sent, reads as that body's length.
  pub call-IsFramed :
      (scope : Scope) (p : ProfilePath) (first : ℕ) (body : Bytes) (messages rest : List Message)
      (c : Call)
      → scope.type ≡ "http"
      → has_body scope.method ≡ true
      → split_profile_path scope.path ≡ some p
      → read_body messages ≡ complete (first ∷ body) rest
      → call loads loads_text dumps decode scope messages ≡ ok (some c)
      → IsFramed c
  call-IsFramed scope p first body messages rest c http write path read h =
      let (metadata, _, h') =
        bind_inversion (workspace_from_codex_turn_metadata loads_text decode scope.headers) _
          (sym (call-sent_on scope p first body messages rest http write path read) ∙ h) in
      sent_on-IsFramed scope p metadata (first ∷ body) rest c h'
