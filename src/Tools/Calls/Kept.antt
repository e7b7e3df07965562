-- ===== src/Tools/Calls/Kept.antt =====
-- The cache of `ToolRegistry` of packages/agent_runtime/tools.py over histories of registrations and calls.
use evidenceclass_agent.Base.{
  ◌≡◌, sym, ap, ◌∙◌, String, true, Option, some, none, List, [], ◌∷◌, arith, inl, inr, Option-cases,
  Bool-cases, pair_eq, String_eq, Keyed, same_iff, leb, ◌||◌,
}
use evidenceclass_agent.Base.Dict.{Items, lookup, insert, lookup-insert}
use evidenceclass_agent.Base.Outcome.{Outcome, ok, err, Outcome-cases}
use evidenceclass_agent.Tools.{
  ToolError, ToolSpec, ToolRegistry, ToolCallResult, Attempts, attempts_from, Caller, cache_key,
  checked, perform, finish, find, put, invoke, register,
}
use evidenceclass_agent.Tools.Calls.{invoke-checked, perform-cached, perform-hit, perform-tools}

module _ {K V : Type 0} ⦃e : Keyed K⦄ where
  -- an assignment to a key that was free keeps the items that there were
  insert_free-keeps :
      (m : Items K V) (k j : K) (v w : V)
      → lookup j m ≡ none
      → lookup k m ≡ some v
      → lookup k (insert j w m) ≡ some v
  insert_free-keeps m k j v w free h = ground (arith, same_iff j k, lookup-insert m j w k)

-- an operation of the registry
pub data Use (Payload Input Output : Type 0) : Type 0 where
  add : String → ToolSpec Payload Input Output → Use Payload Input Output
  call : String → Payload → Caller → Use Payload Input Output

module _ {Output : Type 0} where
  put-keeps :
      (m : Items (String × String) Output) (k : String × String) (j : Option (String × String))
      (v w : Output)
      → find j m ≡ none
      → lookup k m ≡ some v
      → lookup k (put j w m) ≡ some v
  put-keeps m k none v w free h = h
  put-keeps m k (some j) v w free h = insert_free-keeps m k j v w free h

module _ {Payload Input Output : Type 0} where
  -- a refused registration leaves the registry as it was
  abbrev registered :
      ToolRegistry Payload Input Output
      → Outcome ToolError (ToolRegistry Payload Input Output)
      → ToolRegistry Payload Input Output
  registered r (ok next) = next
  registered r (err e) = r

  abbrev used :
      ToolRegistry Payload Input Output
      → Use Payload Input Output
      → ToolRegistry Payload Input Output
  used r (add name spec) = registered r (register r name spec)
  used r (call name payload c) = (invoke r name payload c).registry

  unfoldable pub after :
      ToolRegistry Payload Input Output
      → List (Use Payload Input Output)
      → ToolRegistry Payload Input Output
  after r [] = r
  after r (u ∷ uses) = after (used r u) uses

  finish-keeps :
      (r : ToolRegistry Payload Input Output) (name : String) (spec : ToolSpec Payload Input Output)
      (j : Option (String × String)) (a : Attempts Output) (k : String × String) (v : Output)
      → find j r.cache ≡ none
      → lookup k r.cache ≡ some v
      → lookup k (finish r name spec j a).registry.cache ≡ some v
  finish-keeps r name spec j (budget, err e) k v free h = h
  finish-keeps r name spec j (budget, ok (o, n)) k v free h = put-keeps r.cache k j v o free h

  perform-keeps :
      (r : ToolRegistry Payload Input Output) (name : String) (spec : ToolSpec Payload Input Output)
      (model : Input) (c : Caller) (k : String × String) (v : Output)
      → lookup k r.cache ≡ some v
      → lookup k (perform r name spec model c).registry.cache ≡ some v
  perform-keeps r name spec model c k v h =
      elim (Option-cases (find (cache_key name spec c.idempotency_key) r.cache)) [
        | inl f ↦
            rw (f, perform)
              (finish-keeps r name spec _ (attempts_from spec model spec.max_attempts 0 c.budget) k
                v f h)
        | inr (o, f) ↦ rw (f, perform) h
      ]

  -- A tool that is registered stays, and a cached output stays.
  record IsKept (name : String) (spec : ToolSpec Payload Input Output) (k : String × String)
      (v : Output) (r : ToolRegistry Payload Input Output) : Type 0 where
    tool : lookup name r.tools ≡ some spec
    entry : lookup k r.cache ≡ some v

  module _ (name : String) (spec : ToolSpec Payload Input Output) (k : String × String)
      (v : Output) where
    invoke-IsKept :
        (r : ToolRegistry Payload Input Output) (tool : String) (payload : Payload) (c : Caller)
        → IsKept name spec k v r
        → IsKept name spec k v (invoke r tool payload c).registry
    unfolding invoke
    invoke-IsKept r tool payload c i =
        elim (Outcome-cases (checked tool (lookup tool r.tools) payload c)) [
          | inl ((found, m), f) ↦
              rw (f, invoke)
                (record {
                  tool = ap (λ t. lookup name t) (perform-tools r tool found m c) ∙ i.tool;
                  entry = perform-keeps r tool found m c k v i.entry;
                })
          | inr (e, f) ↦ rw (f, invoke) i
        ]

    add-IsKept :
        (r : ToolRegistry Payload Input Output) (tool : String)
        (other : ToolSpec Payload Input Output)
        → IsKept name spec k v r
        → IsKept name spec k v (registered r (register r tool other))
    unfolding register
    add-IsKept r tool other i = elim (Option-cases (lookup tool r.tools)) [
      | inr (known, f) ↦ rw (f, register) i
      | inl free ↦ elim (Bool-cases (leb other.timeout_seconds 0 || leb other.max_attempts 0)) [
        | inl bad ↦ rw (free, bad, register) i
        | inr good ↦
            rw (free, good, register)
              (record {
                tool = insert_free-keeps r.tools name tool spec other free i.tool;
                entry = i.entry;
              })
      ]
    ]

    after-IsKept :
        (r : ToolRegistry Payload Input Output) (uses : List (Use Payload Input Output))
        → IsKept name spec k v r
        → IsKept name spec k v (after r uses)
    unfolding after
    after-IsKept r [] i = i
    after-IsKept r (add tool other ∷ uses) i =
        after-IsKept (registered r (register r tool other)) uses (add-IsKept r tool other i)
    after-IsKept r (call tool payload c ∷ uses) i =
        after-IsKept (invoke r tool payload c).registry uses (invoke-IsKept r tool payload c i)

  -- A call that returns, with a key of a registered tool that is idempotent, keeps its output for good:
  -- after any further registrations and calls, a call of the tool with that key which passes the
  -- checks gets the same output out of the cache, without a run of the handler. The workspaces of
  -- the two calls, and their payloads, may differ.
  pub invoke_again :
      (r : ToolRegistry Payload Input Output) (name key : String)
      (spec : ToolSpec Payload Input Output) (first later : Payload) (c d : Caller) (m n : Input)
      (res : ToolCallResult Output) (between : List (Use Payload Input Output))
      → lookup name r.tools ≡ some spec
      → checked name (some spec) first c ≡ ok (spec, m)
      → cache_key name spec c.idempotency_key ≡ some (name, key)
      → (invoke r name first c).outcome ≡ ok res
      → checked name (some spec) later d ≡ ok (spec, n)
      → d.idempotency_key ≡ c.idempotency_key
      → (invoke (after (invoke r name first c).registry between) name later d).outcome
        ≡ ok (record {
          tool_name = name;
          version = spec.version;
          output = res.output;
          cached = true;
          attempts = 1;
        })
  invoke_again r name key spec first later c d m n res between found e k h f i =
      let p = invoke-checked r name spec first c m (rw found e) in
      let start : IsKept name spec (name, key) res.output (invoke r name first c).registry =
        rw p (record {
          tool = ap (λ t. lookup name t) (perform-tools r name spec m c) ∙ found;
          entry = perform-cached r name (name, key) spec m c res k (rw p at h);
        }) in
      let kept = after-IsKept name spec (name, key) res.output _ between start in
      let j = sym i in
      rw
        (invoke-checked (after (invoke r name first c).registry between) name spec later d n
          (rw kept.tool f))
        (perform-hit _ name (name, key) spec n d res.output (rw j at k) kept.entry)
