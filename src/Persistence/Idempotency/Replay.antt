-- ===== src/Persistence/Idempotency/Replay.antt =====
-- What a second request with the same key gets from packages/persistence/idempotency.py.
use evidenceclass_agent.Base.{
  ℕ, ◌≡◌, refl, ap, ◌∙◌, Bool, true, false, Option, none, some, List, [], ◌∷◌, arith, Keyed, ◌==◌,
  ℕ_eq, inl, inr, sym, same_iff, Bool-cases, Option-cases,
}
use evidenceclass_agent.Base.Dict.{Items, lookup, insert, lookup-insert, lookup-insert_self}
use evidenceclass_agent.Base.Outcome.{Outcome, ok, err, Outcome-cases}
use evidenceclass_agent.Persistence.Idempotency.{
  IdempotencyError, previous_failure, operation_failed, conflict, invalid_key, IdempotencyRecord,
  Shared, Request, is_valid_key, reserve, await_existing, perform, execute, succeeded, failed,
  processing_record,
}

-- what a repeated request gets for the outcome of the first
abbrev pub replayed :
    {E R : Type 0} → Bool → Outcome (IdempotencyError E) R → Outcome (IdempotencyError E) R
replayed false outcome = err conflict
replayed true (ok response) = ok response
replayed true (err (operation_failed error)) = err (previous_failure error)
replayed true (err error) = err error

module _ {S E R : Type 0} where
  -- what an operation makes of the rest of the database, and the answer to its request
  abbrev pub performed : S → Outcome E (S × R) → S × Outcome (IdempotencyError E) R
  performed rest (ok (next, response)) = (next, ok response)
  performed rest (err error) = (rest, err (operation_failed error))

module _ {K V : Type 0} ⦃e : Keyed K⦄ where
  lookup-insert_other :
      (m : Items K V) (k : K) (v : V) (j : K)
      → (k == j) ≡ false
      → lookup j (insert k v m) ≡ lookup j m
  lookup-insert_other m k v j n = ground (arith, n, lookup-insert m k v j)

module _ {K S E R : Type 0} ⦃e : Keyed K⦄ where
  -- the record that a first request leaves behind
  perform-replayed :
      (s : Shared K S E R) (q : Request K S E R) (r : IdempotencyRecord E R) (fingerprint : ℕ)
      → lookup q.key s.records ≡ some r
      → await_existing fingerprint (lookup q.key (perform s q).0.records ∷ [])
        ≡ replayed (r.request_hash == fingerprint) (perform s q).1
  unfolding await_existing perform
  perform-replayed s q r fingerprint h = elim (Outcome-cases (q.operation s.rest)) [
    | inl ((rest, response), f) ↦
        rw (h, f, perform)
          (ground (
            arith,
            lookup-insert_self q.key (record r { status = succeeded; response = some response })
                s.records,
          ))
    | inr (error, f) ↦
        rw (h, f, perform)
          (ground (arith, lookup-insert_self q.key (record r { status = failed error }) s.records))
  ]

  -- the database in which a new key is reserved
  abbrev pub reserved : Shared K S E R → Request K S E R → Shared K S E R
  reserved s q = record s { records = insert q.key (processing_record q.fingerprint) s.records }

  pub execute_new :
      (s : Shared K S E R) (q : Request K S E R) (polls : List (Option (IdempotencyRecord E R)))
      → lookup q.key s.records ≡ none
      → is_valid_key q.key_length ≡ true
      → execute s q polls ≡ perform (reserved s q) q
  unfolding execute reserve
  execute_new s q polls h v = rw (h, v, execute, reserve) refl

  pub execute_known :
      (s : Shared K S E R) (q : Request K S E R) (polls : List (Option (IdempotencyRecord E R)))
      (r : IdempotencyRecord E R)
      → lookup q.key s.records ≡ some r
      → is_valid_key q.key_length ≡ true
      → execute s q polls ≡ (s, await_existing q.fingerprint polls)
  unfolding execute reserve
  execute_known s q polls r h v = rw (h, v, execute, reserve) refl

  -- the record of a request that has been performed
  perform-known :
      (s : Shared K S E R) (q : Request K S E R) (r : IdempotencyRecord E R)
      → lookup q.key s.records ≡ some r
      → (t : IdempotencyRecord E R) × (lookup q.key (perform s q).0.records ≡ some t)
  unfolding perform
  perform-known s q r h = elim (Outcome-cases (q.operation s.rest)) [
    | inl ((rest, response), f) ↦ rw (h, f, perform) (_, lookup-insert_self q.key _ s.records)
    | inr (error, f) ↦ rw (h, f, perform) (_, lookup-insert_self q.key _ s.records)
  ]

  perform-elsewhere :
      (s : Shared K S E R) (q : Request K S E R) (k : K) (r : IdempotencyRecord E R)
      → lookup q.key s.records ≡ some r
      → (q.key == k) ≡ false
      → lookup k (perform s q).0.records ≡ lookup k s.records
  unfolding perform
  perform-elsewhere s q k r h n = elim (Outcome-cases (q.operation s.rest)) [
    | inl ((rest, response), f) ↦ rw (h, f, perform) (lookup-insert_other s.records q.key _ k n)
    | inr (error, f) ↦ rw (h, f, perform) (lookup-insert_other s.records q.key _ k n)
  ]

  execute_invalid :
      (s : Shared K S E R) (q : Request K S E R) (polls : List (Option (IdempotencyRecord E R)))
      → is_valid_key q.key_length ≡ false
      → execute s q polls ≡ (s, err invalid_key)
  unfolding execute
  execute_invalid s q polls v = rw (v, execute) refl

  -- a new key is not one that has a record
  new_key-differs :
      (s : Shared K S E R) (q : Request K S E R) (k : K) (r : IdempotencyRecord E R)
      → lookup q.key s.records ≡ none
      → lookup k s.records ≡ some r
      → (q.key == k) ≡ false
  new_key-differs s q k r n h = ground (arith, same_iff q.key k)

  execute_new-keeps :
      (s : Shared K S E R) (q : Request K S E R) (k : K) (r : IdempotencyRecord E R)
      → lookup q.key s.records ≡ none
      → lookup k s.records ≡ some r
      → lookup k (perform (reserved s q) q).0.records ≡ some r
  execute_new-keeps s q k r n h =
      let differs = new_key-differs s q k r n h in
      let pending = processing_record q.fingerprint in
      perform-elsewhere (reserved s q) q k pending (lookup-insert_self q.key pending s.records)
        differs
      ∙ lookup-insert_other s.records q.key pending k differs
      ∙ h

  -- No request changes a record that it finds in the table.
  execute-keeps :
      (s : Shared K S E R) (q : Request K S E R) (polls : List (Option (IdempotencyRecord E R)))
      (k : K) (r : IdempotencyRecord E R)
      → lookup k s.records ≡ some r
      → lookup k (execute s q polls).0.records ≡ some r
  execute-keeps s q polls k r h = elim (Bool-cases (is_valid_key q.key_length)) [
    | inr bad ↦ rw (execute_invalid s q polls bad) h
    | inl valid ↦ elim (Option-cases (lookup q.key s.records)) [
      | inl new ↦ rw (execute_new s q polls new valid) (execute_new-keeps s q k r new h)
      | inr (known, f) ↦ rw (execute_known s q polls known f valid) h
    ]
  ]

  -- the database behind some requests, each with what its polls read
  unfoldable pub after_requests :
      Shared K S E R
      → List (Request K S E R × List (Option (IdempotencyRecord E R)))
      → Shared K S E R
  after_requests s [] = s
  after_requests s ((q, polls) ∷ requests) = after_requests (execute s q polls).0 requests

  after_requests-keeps :
      (s : Shared K S E R)
      (requests : List (Request K S E R × List (Option (IdempotencyRecord E R)))) (k : K)
      (r : IdempotencyRecord E R)
      → lookup k s.records ≡ some r
      → lookup k (after_requests s requests).records ≡ some r
  unfolding after_requests
  after_requests-keeps s [] k r h = h
  after_requests-keeps s ((q, polls) ∷ requests) k r h =
      after_requests-keeps (execute s q polls).0 requests k r (execute-keeps s q polls k r h)

  perform-performed :
      (s : Shared K S E R) (q : Request K S E R) (r : IdempotencyRecord E R)
      → lookup q.key s.records ≡ some r
      → ((perform s q).0.rest, (perform s q).1) ≡ performed s.rest (q.operation s.rest)
  unfolding perform
  perform-performed s q r h = elim (Outcome-cases (q.operation s.rest)) [
    | inl ((rest, response), f) ↦ rw (h, f, perform) refl
    | inr (error, f) ↦ rw (h, f, perform) refl
  ]

  -- A request with a new key changes the rest of the database as one run of its operation does, and
  -- answers with the operation's response; where the operation raises, the rest stays as it was. After
  -- any further requests, with this key or with others, a later request with that key, whatever its own
  -- operation is, changes neither the records nor the rest: with another fingerprint it is refused;
  -- with the same one it gets the response of the first, or an error that names the first one's
  -- error. The requests come one after the other.
  pub execute_again :
      (s : Shared K S E R) (q later : Request K S E R)
      (between : List (Request K S E R × List (Option (IdempotencyRecord E R))))
      → lookup q.key s.records ≡ none
      → later.key ≡ q.key
      → is_valid_key q.key_length ≡ true
      → is_valid_key later.key_length ≡ true
      → (((execute s q []).0.rest, (execute s q []).1) ≡ performed s.rest (q.operation s.rest))
        × (execute
              (after_requests (execute s q []).0 between)
              later
              (lookup q.key (after_requests (execute s q []).0 between).records ∷ [])
            ≡ (
              after_requests (execute s q []).0 between,
              replayed (q.fingerprint == later.fingerprint) (execute s q []).1,
            ))
  execute_again s q later between h k v w =
      let known = lookup-insert_self q.key (processing_record q.fingerprint) s.records in
      let pending = processing_record q.fingerprint in
      let first = perform (reserved s q) q in
      let (t, f) = perform-known (reserved s q) q pending known in
      let kept = after_requests-keeps first.0 between q.key t f in
      rw (execute_new s q [] h v) (
        perform-performed (reserved s q) q pending known,
        execute_known (after_requests first.0 between) later _ t (rw k kept) w
            ∙ ap
                (λ seen.
                  (after_requests first.0 between, await_existing later.fingerprint (seen ∷ [])))
                (kept ∙ sym f)
            ∙ ap (λ o. (after_requests first.0 between, o))
                (perform-replayed (reserved s q) q pending later.fingerprint known),
      )
