-- ===== src/OpenRouter/Grants.antt =====
-- reverso/protocols/adapters/openrouter/grants.py: the registry of launcher capabilities. What the
-- clock and the liveness callback answer during a call, and the token that `secrets` draws, are
-- arguments. Times and durations, Python floats, count ticks of a clock.
pub mod Authority
use reverso_llm.Prelude.{
  ℕ, String, Bool, true, false, not, Option, none, some, [], if◌then◌else◌, ◌==◌, text_key, nat_eq,
}
use reverso_llm.Prelude.Int.{ℤ, pos, ◌-ℤ◌, leb_ℤ, min_ℤ}
use reverso_llm.Prelude.Dict
use reverso_llm.Prelude.Dict.{Dict}
use reverso_llm.Outcome.{Outcome, ok, raised}

pub record Grant : Type 0 where
  pub capability : String
  pub launcher_pid : ℕ
  pub model : String
  pub issued_at : ℤ
  pub ttl_seconds : ℤ

unfoldable pub is_alive : ℤ → Bool → Grant → Bool
is_alive now live g = if live then leb_ℤ (now -ℤ g.issued_at) g.ttl_seconds else false

pub record GrantRegistry : Type 0 where
  pub max_ttl_seconds : ℤ
  pub grants : Dict String Grant

-- `ttl_seconds or self._max_ttl_seconds`
abbrev pub ttl_or : Option ℤ → ℤ → ℤ
ttl_or none longest = longest
ttl_or (some ttl) longest = elim ttl [
  | pos n ↦ (if nat_eq n 0 then longest else pos n)
  | other ↦ other
]

unfoldable pub issue :
    String → ℕ → String → Option ℤ → ℤ → Bool → GrantRegistry → Outcome String × GrantRegistry
issue token launcher_pid model ttl_seconds now live registry =
    let grant : Grant = record {
      capability = token;
      launcher_pid = launcher_pid;
      model = model;
      issued_at = now;
      ttl_seconds = min_ℤ registry.max_ttl_seconds (ttl_or ttl_seconds registry.max_ttl_seconds);
    } in
    let written = Dict.put token grant registry.grants in
    if live
    then (ok token, record registry { grants = written })
    else (raised "InvalidGrantError", record registry { grants = Dict.pop token written })

unfoldable pub revoke : String → GrantRegistry → GrantRegistry
revoke capability registry = record registry { grants = Dict.pop capability registry.grants }

unfoldable pub revoke_all : GrantRegistry → GrantRegistry
revoke_all registry = record registry { grants = [] }

abbrev refuse : String → GrantRegistry → Outcome Grant × GrantRegistry
refuse capability registry = (raised "InvalidGrantError", revoke capability registry)

verify_grant :
    Option Grant → String → ℕ → String → ℤ → Bool → GrantRegistry → Outcome Grant × GrantRegistry
verify_grant none capability launcher_pid model now live registry =
    (raised "InvalidGrantError", registry)
verify_grant (some grant) capability launcher_pid model now live registry =
    if not (nat_eq grant.launcher_pid launcher_pid)
    then refuse capability registry
    else if not (grant.model == model)
    then refuse capability registry
    else if not (is_alive now live grant)
    then refuse capability registry
    else (ok grant, registry)

unfoldable pub verify :
    String → ℕ → String → ℤ → Bool → GrantRegistry → Outcome Grant × GrantRegistry
unfolding verify_grant
verify capability launcher_pid model now live registry =
    verify_grant (Dict.get capability registry.grants) capability launcher_pid model now live
      registry
