-- ===== src/OpenRouter/Grants/Authority.antt =====
-- Who a capability authorizes, and for how long.
use mathlib.Core.Path.{subst}
use reverso_llm.Prelude.{
  ℕ, String, Bool, true, false, Option, none, some, ◌==◌, text_key, nat_eq, ◌≡◌, refl, arith,
  Bool-cases, inl, inr, ap, ◌∙◌,
}
use reverso_llm.Prelude.Int.{ℤ, ◌-ℤ◌, min_ℤ, ◌≤ℤ◌}
use reverso_llm.Prelude.Dict
use reverso_llm.Prelude.Dict.{Dict, get-put, get-pop, key_refl}
use reverso_llm.Outcome.{Outcome, ok, raised}
use reverso_llm.OpenRouter.Grants.{
  Grant, is_alive, GrantRegistry, issue, revoke, revoke_all, verify_grant, verify, ttl_or,
}

-- The launcher, the model and the age that a capability answers for.
pub record Authorizes (g : Grant) (launcher_pid : ℕ) (model : String) (now : ℤ) (live : Bool)
    : Type 0 where
  pub launcher : g.launcher_pid ≡ launcher_pid
  pub for_model : g.model ≡ model
  pub running : live ≡ true
  pub young : now -ℤ g.issued_at ≤ℤ g.ttl_seconds

authorized :
    {pid : ℕ} {model : String} {now : ℤ} {live : Bool} (g : Grant)
    → nat_eq g.launcher_pid pid ≡ true
    → (g.model == model) ≡ true
    → is_alive now live g ≡ true
    → Authorizes g pid model now live
unfolding is_alive
authorized {model} g a b c = record {
  launcher = ground arith;
  for_model = (text_key.same_iff g.model model).0 b;
  running = ground arith;
  young = ground arith;
}

registered : (o : Option Grant) (f g : Grant) → o ≡ some f → o ≡ some g → f ≡ g
registered o f g a b = cc

other_launcher :
    {pid : ℕ} {model : String} {now : ℤ} {live : Bool} (g : Grant)
    → nat_eq g.launcher_pid pid ≡ false
    → ¬ Authorizes g pid model now live
other_launcher g a may = let same = may.launcher in absurd (ground arith)

other_model :
    {pid : ℕ} {model : String} {now : ℤ} {live : Bool} (g : Grant)
    → (g.model == model) ≡ false
    → ¬ Authorizes g pid model now live
other_model {model} g b may =
    let same = (text_key.same_iff g.model model).1 may.for_model in absurd (ground arith)

not_alive :
    {pid : ℕ} {model : String} {now : ℤ} {live : Bool} (g : Grant)
    → is_alive now live g ≡ false
    → ¬ Authorizes g pid model now live
unfolding is_alive
not_alive g c may = let running = may.running in let young = may.young in absurd (ground arith)

module _ (capability : String) (pid : ℕ) (model : String) (now : ℤ) (live : Bool)
    (r : GrantRegistry) where
  -- A call that returns hands over the registered grant, which authorizes it, and leaves the registry
  -- as it was; a call that raises had no registered grant that authorizes it, and leaves the capability
  -- unknown and every other one as it was.
  abbrev pub Verifies : Outcome Grant → GrantRegistry → Type 0
  Verifies (ok g) next =
      (Dict.get capability r.grants ≡ some g) × Authorizes g pid model now live × (next ≡ r)
  Verifies (raised _) next =
      ((g : Grant) → Dict.get capability r.grants ≡ some g → ¬ Authorizes g pid model now live)
      × (Dict.get capability next.grants ≡ none)
      × ((other : String)
          → (capability == other) ≡ false
          → Dict.get other next.grants ≡ Dict.get other r.grants)

  refused :
      (g : Grant)
      → Dict.get capability r.grants ≡ some g
      → ¬ Authorizes g pid model now live
      → Verifies (raised "InvalidGrantError") (revoke capability r)
  unfolding revoke
  refused g e unfit = (
    λ f found may.
        let same : f ≡ g = registered (Dict.get capability r.grants) f g found e in
        unfit (subst (λ (x : Grant). Authorizes x pid model now live) same may),
    rw (get-pop capability capability r.grants, key_refl capability),
    λ other ne. rw (get-pop capability other r.grants, ne),
  )

  verify_grant-Verifies :
      (o : Option Grant)
      → Dict.get capability r.grants ≡ o
      → Verifies
          (verify_grant o capability pid model now live r).0
          (verify_grant o capability pid model now live r).1
  unfolding verify_grant
  verify_grant-Verifies none e = (λ g found. absurd (ground arith), e, λ other ne. refl)
  verify_grant-Verifies (some g) e = elim (Bool-cases (nat_eq g.launcher_pid pid)) [
    | inr a ↦ rw a (refused g e (λ may. other_launcher g a may))
    | inl a ↦ elim (Bool-cases (g.model == model)) [
      | inr b ↦ rw (a, b) (refused g e (λ may. other_model g b may))
      | inl b ↦ elim (Bool-cases (is_alive now live g)) [
        | inr c ↦ rw (a, b, c) (refused g e (λ may. not_alive g c may))
        | inl c ↦ rw (a, b, c) (e, authorized g a b c, refl)
      ]
    ]
  ]

  -- A capability is accepted exactly if it is registered and its grant authorizes the launcher, the
  -- model and the time; then nothing changes. Otherwise the call raises, the capability is unknown
  -- from then on, and every other capability is as before.
  pub verify-Verifies :
      Verifies (verify capability pid model now live r).0 (verify capability pid model now live r).1
  unfolding verify
  verify-Verifies = verify_grant-Verifies (Dict.get capability r.grants) refl

  -- Whatever the registry accepts once it accepts again under the same launcher, model and time.
  pub verify_accepts :
      (g : Grant)
      → Dict.get capability r.grants ≡ some g
      → Authorizes g pid model now live
      → verify capability pid model now live r ≡ (ok g, r)
  unfolding verify verify_grant is_alive
  verify_accepts g e a = rw e (ground (arith, text_key.same_iff g.model model))

-- A capability that was issued is accepted for its launcher and its model while its age is at most
-- the requested lifetime, capped by the registry's longest; a lifetime of none or zero asks for the
-- longest.
pub verify-issue :
    (token : String) (pid : ℕ) (model : String) (ttl : Option ℤ) (issued now : ℤ)
    (r : GrantRegistry)
    → now -ℤ issued ≤ℤ min_ℤ r.max_ttl_seconds (ttl_or ttl r.max_ttl_seconds)
    → (verify token pid model now true (issue token pid model ttl issued true r).1).0
      ≡ ok (record {
        capability = token;
        launcher_pid = pid;
        model = model;
        issued_at = issued;
        ttl_seconds = min_ℤ r.max_ttl_seconds (ttl_or ttl r.max_ttl_seconds);
      })
unfolding issue
verify-issue token pid model ttl issued now r young =
    let grant : Grant = record {
      capability = token;
      launcher_pid = pid;
      model = model;
      issued_at = issued;
      ttl_seconds = min_ℤ r.max_ttl_seconds (ttl_or ttl r.max_ttl_seconds);
    } in
    ap (λ (p : Outcome Grant × GrantRegistry). p.0)
      (verify_accepts token pid model now true (record r { grants = Dict.put token grant r.grants })
        grant (rw (get-put token token grant r.grants, key_refl token))
        (record { launcher = refl; for_model = refl; running = refl; young = young }))

-- No grant outlives the registry's longest lifetime.
abbrev pub IsCapped : GrantRegistry → Type 0
IsCapped r =
    (k : String) (g : Grant) → Dict.get k r.grants ≡ some g → g.ttl_seconds ≤ℤ r.max_ttl_seconds

pop-IsCapped : (k : String) (r : GrantRegistry) → IsCapped r → IsCapped (revoke k r)
unfolding revoke
pop-IsCapped k r h j g = rw get-pop (ground (arith, h j g))

put-IsCapped :
    (k : String) (g : Grant) (r : GrantRegistry)
    → g.ttl_seconds ≤ℤ r.max_ttl_seconds
    → IsCapped r
    → IsCapped (record r { grants = Dict.put k g r.grants })
put-IsCapped k g r low h j f = rw get-put (ground (arith, h j f))

min-le : (a b : ℤ) → min_ℤ a b ≤ℤ a
min-le a b = ground arith

clear-IsCapped : (r : GrantRegistry) → IsCapped (revoke_all r)
unfolding revoke_all Dict.get
clear-IsCapped r k g e = absurd (ground arith)

issue-IsCapped :
    (token : String) (pid : ℕ) (model : String) (ttl : Option ℤ) (now : ℤ) (live : Bool)
    (r : GrantRegistry)
    → IsCapped r
    → IsCapped (issue token pid model ttl now live r).1
unfolding issue
issue-IsCapped token pid model ttl now true r h =
    put-IsCapped token _ r (min-le r.max_ttl_seconds (ttl_or ttl r.max_ttl_seconds)) h
issue-IsCapped token pid model ttl now false r h =
    unfold revoke in
    pop-IsCapped token _
      (put-IsCapped token _ r (min-le r.max_ttl_seconds (ttl_or ttl r.max_ttl_seconds)) h)

verify_grant-IsCapped :
    (o : Option Grant) (k : String) (pid : ℕ) (model : String) (now : ℤ) (live : Bool)
    (r : GrantRegistry)
    → IsCapped r
    → IsCapped (verify_grant o k pid model now live r).1
unfolding verify_grant
verify_grant-IsCapped none k pid model now live r h = h
verify_grant-IsCapped (some g) k pid model now live r h =
    elim (Bool-cases (nat_eq g.launcher_pid pid)) [
      | inr a ↦ rw a (pop-IsCapped k r h)
      | inl a ↦ elim (Bool-cases (g.model == model)) [
        | inr b ↦ rw (a, b) (pop-IsCapped k r h)
        | inl b ↦ elim (Bool-cases (is_alive now live g)) [
          | inr c ↦ rw (a, b, c) (pop-IsCapped k r h)
          | inl c ↦ rw (a, b, c) h
        ]
      ]
    ]

verify-IsCapped :
    (k : String) (pid : ℕ) (model : String) (now : ℤ) (live : Bool) (r : GrantRegistry)
    → IsCapped r
    → IsCapped (verify k pid model now live r).1
unfolding verify
verify-IsCapped k pid model now live r h =
    verify_grant-IsCapped (Dict.get k r.grants) k pid model now live r h

-- The life of a registry: every call of its methods, and `revoke_all`.
pub data Life (r : GrantRegistry) : GrantRegistry → Type 0 where
  start : Life r r
  issues :
      (token : String) (pid : ℕ) (model : String) (ttl : Option ℤ) (now : ℤ) (live : Bool)
      {s : GrantRegistry}
      → Life r s
      → Life r (issue token pid model ttl now live s).1
  verifies :
      (k : String) (pid : ℕ) (model : String) (now : ℤ) (live : Bool) {s : GrantRegistry}
      → Life r s
      → Life r (verify k pid model now live s).1
  revokes : (k : String) {s : GrantRegistry} → Life r s → Life r (revoke k s)
  clears : {s : GrantRegistry} → Life r s → Life r (revoke_all s)

Life-IsCapped : {r s : GrantRegistry} → Life r s → IsCapped r → IsCapped s
Life-IsCapped start h = h
Life-IsCapped (issues token pid model ttl now live {s} l) h =
    issue-IsCapped token pid model ttl now live s (Life-IsCapped l h)
Life-IsCapped (verifies k pid model now live {s} l) h =
    verify-IsCapped k pid model now live s (Life-IsCapped l h)
Life-IsCapped (revokes k {s} l) h = pop-IsCapped k s (Life-IsCapped l h)
Life-IsCapped (clears {s} l) h = clear-IsCapped s

max_ttl-verify_grant :
    (o : Option Grant) (k : String) (pid : ℕ) (model : String) (now : ℤ) (live : Bool)
    (r : GrantRegistry)
    → (verify_grant o k pid model now live r).1.max_ttl_seconds ≡ r.max_ttl_seconds
unfolding verify_grant revoke
max_ttl-verify_grant none k pid model now live r = refl
max_ttl-verify_grant (some g) k pid model now live r = ground arith

max_ttl-Life : {r s : GrantRegistry} → Life r s → s.max_ttl_seconds ≡ r.max_ttl_seconds
unfolding issue verify revoke revoke_all
max_ttl-Life start = refl
max_ttl-Life (issues token pid model ttl now true l) = max_ttl-Life l
max_ttl-Life (issues token pid model ttl now false l) = max_ttl-Life l
max_ttl-Life (verifies k pid model now live {s} l) =
    max_ttl-verify_grant (Dict.get k s.grants) k pid model now live s ∙ max_ttl-Life l
max_ttl-Life (revokes k l) = max_ttl-Life l
max_ttl-Life (clears l) = max_ttl-Life l

verified_age :
    (k : String) (pid : ℕ) (model : String) (now : ℤ) (live : Bool) (s : GrantRegistry)
    (o : Outcome Grant) (n : GrantRegistry) (g : Grant)
    → o ≡ ok g
    → Verifies k pid model now live s o n
    → IsCapped s
    → now -ℤ g.issued_at ≤ℤ s.max_ttl_seconds
verified_age k pid model now live s (ok f) n g e (found, may, same) h =
    let young : now -ℤ f.issued_at ≤ℤ f.ttl_seconds = may.young in
    let capped = h k f found in
    let old : f ≡ g = cc in
    subst (λ (x : Grant). now -ℤ x.issued_at ≤ℤ s.max_ttl_seconds) old (omega arith)
verified_age k pid model now live s (raised x) n g e v h = absurd (ground arith)

-- Over every life of a registry that starts with capped grants, such as an empty one, a capability
-- is accepted only while its age is at most the registry's longest lifetime, whatever lifetime was
-- asked for and however often it was accepted before.
pub verify_within_max_ttl :
    {r s : GrantRegistry} (k : String) (pid : ℕ) (model : String) (now : ℤ) (live : Bool)
    (g : Grant)
    → IsCapped r
    → Life r s
    → (verify k pid model now live s).0 ≡ ok g
    → now -ℤ g.issued_at ≤ℤ r.max_ttl_seconds
verify_within_max_ttl {s} k pid model now live g h l e = rw (← max_ttl-Life l) (
    verified_age k pid model now live s _ _ g e (verify-Verifies k pid model now live s)
      (Life-IsCapped l h))
