-- ===== src/Daemon/Sessions/Again.antt =====
-- Sessions are kept: a key has one session until it is removed.
use reverso_llm.Prelude.{
  ℕ, String, none, some, ◌≡◌, ◌≢◌, sym, refl, ap, ◌∙◌, arith, Option-cases, inl, inr, ◌⊎◌,
}
use reverso_llm.Prelude.Int.{ℤ}
use reverso_llm.Prelude.Dict
use reverso_llm.Prelude.Dict.{key_refl, get-put}
use reverso_llm.Outcome.{Outcome, ok, raised}
use reverso_llm.Daemon.Sessions.{
  SessionKey, Session, SessionTable, session_key, create, get_or_create,
}

module _ (machine_id workspace provider : String) (now : ℤ) (table : SessionTable) where
  abbrev its_key : SessionKey
  its_key = record { machine_id = machine_id; workspace = workspace; provider = provider }

  abbrev fresh : ℕ → Session
  fresh process = record {
    key = its_key;
    process = process;
    spawned_at = now;
    last_request_at = now;
    turn_count = 0;
    cli_session_id = none;
  }

  found :
      (session : Session) (spawned : Outcome ℕ)
      → Dict.get its_key table ≡ some session
      → get_or_create machine_id workspace provider spawned now table ≡ (ok session, table)
  unfolding get_or_create
  found session spawned e = rw (e, get_or_create) refl

  made :
      (process : ℕ)
      → Dict.get its_key table ≡ none
      → get_or_create machine_id workspace provider (ok process) now table
        ≡ (ok (fresh process), Dict.put its_key (fresh process) table)
  unfolding get_or_create create
  made process e = rw (e, get_or_create) refl

  failed :
      (x : String)
      → Dict.get its_key table ≡ none
      → get_or_create machine_id workspace provider (raised x) now table ≡ (raised x, table)
  unfolding get_or_create create
  failed x e = rw (e, get_or_create) refl

  never : {x : String} {a : Session} → raised x ≢ ok a
  never h = ground arith

  ok_some : {a b : Session} → ok a ≡ ok b → some a ≡ some b
  ok_some h = cc h

  -- The session of an answer is in the table that the call leaves.
  pub get-get_or_create :
      (spawned : Outcome ℕ) (session : Session)
      → (get_or_create machine_id workspace provider spawned now table).0 ≡ ok session
      → Dict.get its_key (get_or_create machine_id workspace provider spawned now table).1
        ≡ some session
  get-get_or_create spawned session h = go spawned (Option-cases (Dict.get its_key table)) h
    where
      go :
          (spawned : Outcome ℕ)
          → (Dict.get its_key table ≡ none) ⊎ ((s : Session) × (Dict.get its_key table ≡ some s))
          → (get_or_create machine_id workspace provider spawned now table).0 ≡ ok session
          → Dict.get its_key (get_or_create machine_id workspace provider spawned now table).1
            ≡ some session
      go spawned (inr (s, e)) h =
          ap (λ (r : Outcome Session × SessionTable). Dict.get its_key r.1) (found s spawned e)
          ∙ e
          ∙ ok_some (sym (ap (λ (r : Outcome Session × SessionTable). r.0) (found s spawned e)) ∙ h)
      go (ok process) (inl e) h =
          ap (λ (r : Outcome Session × SessionTable). Dict.get its_key r.1) (made process e)
          ∙ rw (get-put its_key its_key (fresh process) table, key_refl its_key)
              (ok_some
                (sym (ap (λ (r : Outcome Session × SessionTable). r.0) (made process e)) ∙ h))
      go (raised x) (inl e) h =
          absurd (never (sym (ap (λ (r : Outcome Session × SessionTable). r.0) (failed x e)) ∙ h))

-- Whatever a second call for the same workspace and provider would spawn, it answers with the session
-- that the first call answered with and changes nothing.
pub get_or_create-get_or_create :
    (machine_id workspace provider : String) (first second : Outcome ℕ) (now later : ℤ)
    (table : SessionTable) (session : Session)
    → (get_or_create machine_id workspace provider first now table).0 ≡ ok session
    → get_or_create machine_id workspace provider second later
        (get_or_create machine_id workspace provider first now table).1
      ≡ (ok session, (get_or_create machine_id workspace provider first now table).1)
unfolding get_or_create
get_or_create-get_or_create machine_id workspace provider first second now later table session h =
    found machine_id workspace provider later
      (get_or_create machine_id workspace provider first now table).1 session second
      (get-get_or_create machine_id workspace provider now table first session h)
