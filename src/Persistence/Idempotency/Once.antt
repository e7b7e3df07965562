-- ===== src/Persistence/Idempotency/Once.antt =====
-- Concurrent requests at packages/persistence/idempotency.py. A reservation is one transaction and the
-- operation another, so a history interleaves the two steps of any number of requests.
use evidenceclass_agent.Base.{
  ℕ, zero, suc, ◌+◌, ◌≤◌, ◌≡◌, refl, Bool, true, false, Option, none, some, List, [], ◌∷◌, ◌++◌,
  arith, if◌then◌else◌, Keyed, ◌==◌, same_iff, inl, inr, Option-cases,
}
use evidenceclass_agent.Base.Dict.{lookup, insert, lookup-insert}
use evidenceclass_agent.Base.Outcome.{Outcome-cases}
use evidenceclass_agent.Persistence.Idempotency.{
  IdempotencyRecord, Shared, Request, reserve, perform, processing_record,
}

-- the database, the requests that own their key and have not run yet, and the keys of the operations
-- that have run
pub record Service (K S E R : Type 0) : Type 0 where
  pub shared : Shared K S E R
  pub owners : List (Request K S E R)
  pub ran : List K

-- a request arrives, or the owner at a place in the list goes on
pub data Step (K S E R : Type 0) : Type 0 where
  arrive : Request K S E R → Step K S E R
  go_on : ℕ → Step K S E R

module _ {A : Type 0} where
  -- the element at a place, and the others
  abbrev pick : ℕ → List A → Option (A × List A)
  pick n [] = none
  pick zero (x ∷ xs) = some (x, xs)
  pick (suc n) (x ∷ xs) = elim (pick n xs) [ none ↦ none | some (y, ys) ↦ some (y, x ∷ ys) ]

module _ {K : Type 0} ⦃e : Keyed K⦄ where
  -- how often a key is in a list
  abbrev pub times : K → List K → ℕ
  times k [] = 0
  times k (x ∷ xs) = if x == k then suc (times k xs) else times k xs

-- a key with a record has one owner or has run, and another has neither
abbrev known : {E R : Type 0} → Option (IdempotencyRecord E R) → ℕ
known none = 0
known (some r) = 1

module _ {K S E R : Type 0} ⦃e : Keyed K⦄ where
  abbrev own : Service K S E R → Request K S E R → Shared K S E R × Bool → Service K S E R
  own v q (s, true) = record v { shared = s; owners = v.owners ++ q ∷ [] }
  own v q (s, false) = record v { shared = s }

  abbrev run_picked :
      Service K S E R → Option (Request K S E R × List (Request K S E R)) → Service K S E R
  run_picked v none = v
  run_picked v (some (q, others)) = record {
    shared = (perform v.shared q).0;
    owners = others;
    ran = q.key ∷ v.ran;
  }

  abbrev pub new_service : S → Service K S E R
  new_service rest = record { shared = record { records = []; rest = rest }; owners = []; ran = [] }

  unfoldable pub step : Service K S E R → Step K S E R → Service K S E R
  step v (arrive q) = own v q (reserve v.shared q.key q.fingerprint)
  step v (go_on n) = run_picked v (pick n v.owners)

  unfoldable pub after : Service K S E R → List (Step K S E R) → Service K S E R
  after v [] = v
  after v (s ∷ steps) = after (step v s) steps

  abbrev owned : K → List (Request K S E R) → ℕ
  owned k [] = 0
  owned k (q ∷ qs) = if q.key == k then suc (owned k qs) else owned k qs

  abbrev Inv : Service K S E R → Type 0
  Inv v = (k : K) → owned k v.owners + times k v.ran ≡ known (lookup k v.shared.records)

  owned-append :
      (k : K) (qs : List (Request K S E R)) (q : Request K S E R)
      → owned k (qs ++ q ∷ []) ≡ owned k qs + (if q.key == k then 1 else 0)
  owned-append k [] q = ground arith
  owned-append k (p ∷ qs) q = ground (arith, owned-append k qs q)

  owned-pick :
      (k : K) (n : ℕ) (qs : List (Request K S E R)) (q : Request K S E R)
      (others : List (Request K S E R))
      → pick n qs ≡ some (q, others)
      → owned k qs ≡ owned k others + (if q.key == k then 1 else 0)
  owned-pick k n [] q others h = ground arith
  owned-pick k zero (p ∷ qs) q others h = ground arith
  owned-pick k (suc n) (p ∷ qs) q others h = elim (Option-cases (pick n qs)) [
    | inl f ↦ ground arith
    | inr ((r, rest), f) ↦ ground (arith, owned-pick k n qs r rest f)
  ]

  written :
      (s : Shared K S E R) (key : K) (r t : IdempotencyRecord E R) (k : K)
      → lookup key s.records ≡ some r
      → known (lookup k (insert key t s.records)) ≡ known (lookup k s.records)
  written s key r t k f = ground (arith, lookup-insert s.records key t k, same_iff key k)

  -- an operation does not change which keys have a record
  perform-known :
      (s : Shared K S E R) (q : Request K S E R) (k : K)
      → known (lookup k (perform s q).0.records) ≡ known (lookup k s.records)
  unfolding perform
  perform-known s q k = elim (Option-cases (lookup q.key s.records)) [
    | inl f ↦ rw (f, perform) refl
    | inr (r, f) ↦ elim (Outcome-cases (q.operation s.rest)) [
      | inl ((rest, response), g) ↦ rw (f, g, perform) (written s q.key r _ k f)
      | inr (error, g) ↦ rw (f, g, perform) (written s q.key r _ k f)
    ]
  ]

  step-Inv : (v : Service K S E R) (s : Step K S E R) → Inv v → Inv (step v s)
  unfolding step reserve
  step-Inv v (arrive q) i k = elim (Option-cases (lookup q.key v.shared.records)) [
    | inr (r, f) ↦ rw (f, reserve) (i k)
    | inl f ↦
        rw (f, reserve)
          (ground (
            arith,
            i k,
            owned-append k v.owners q,
            same_iff q.key k,
            lookup-insert v.shared.records q.key (processing_record q.fingerprint) k,
          ))
  ]
  step-Inv v (go_on n) i k = elim (Option-cases (pick n v.owners)) [
    | inl f ↦ rw (f, run_picked) (i k)
    | inr ((q, others), f) ↦
        rw (f, run_picked)
          (ground (arith, i k, owned-pick k n v.owners q others f, perform-known v.shared q k))
  ]

  after-Inv : (v : Service K S E R) (steps : List (Step K S E R)) → Inv v → Inv (after v steps)
  unfolding after
  after-Inv v [] i = i
  after-Inv v (s ∷ steps) i = after-Inv (step v s) steps (step-Inv v s i)

  -- Requests arrive and go on in any order, any number of them with the same key: the operations of a
  -- key run at most once, and none has run for a key without a record.
  pub runs_once :
      (rest : S) (steps : List (Step K S E R)) (k : K)
      → (times k (after (new_service rest) steps).ran ≤ 1)
        × (lookup k (after (new_service rest) steps).shared.records ≡ none
            → times k (after (new_service rest) steps).ran ≡ 0)
  unfolding lookup
  runs_once rest steps k =
      let i = after-Inv (new_service rest) steps (λ j. refl) k in
      let v = after (new_service rest) steps in
      bounded (lookup k v.shared.records) (owned k v.owners) (times k v.ran) i
    where
      bounded :
          (r : Option (IdempotencyRecord E R)) (n m : ℕ)
          → n + m ≡ known r
          → (m ≤ 1) × (r ≡ none → m ≡ 0)
      bounded none n m i = (omega arith, λ h. omega arith)
      bounded (some r) n m i = (omega arith, λ h. cc)
