-- ===== src/Persistence/Idempotency.antt =====
-- packages/persistence/idempotency.py. A table of records stands beside the rest of the database, which
-- an operation changes or, when it raises, leaves as it was: its transaction is rolled back. A unique
-- constraint holds one record for each workspace, endpoint and key. The fingerprint of a request is a
-- number that stands for it. A request that waits reads the table at each poll before its deadline,
-- and what it reads is given.
pub mod Replay
pub mod Once
use evidenceclass_agent.Base.{
  ℕ, Bool, true, false, not, ◌&&◌, ◌||◌, Option, none, some, List, [], ◌∷◌, leb, ltb, if◌then◌else◌,
  Keyed, ◌==◌, ℕ_eq,
}
use evidenceclass_agent.Base.Dict.{Items, lookup, insert}
use evidenceclass_agent.Base.Outcome.{Outcome, ok, err}

-- the errors of the service, and those of the operation
pub data IdempotencyError (E : Type 0) : Type 0 where
  invalid_key disappeared response_missing conflict timeout : IdempotencyError E
  previous_failure : E → IdempotencyError E
  operation_failed : E → IdempotencyError E

pub data RecordStatus (E : Type 0) : Type 0 where
  processing succeeded : RecordStatus E
  failed : E → RecordStatus E

pub record IdempotencyRecord (E R : Type 0) : Type 0 where
  pub request_hash : ℕ
  pub status : RecordStatus E
  pub response : Option R

-- the table of the records, and the rest of the database
pub record Shared (K S E R : Type 0) : Type 0 where
  pub records : Items K (IdempotencyRecord E R)
  pub rest : S

-- the arguments of `execute`
pub record Request (K S E R : Type 0) : Type 0 where
  pub key : K
  pub key_length : ℕ
  pub fingerprint : ℕ
  pub operation : S → Outcome E (S × R)

abbrev pub is_valid_key : ℕ → Bool
is_valid_key n = not (leb n 0) && leb n 255

module _ {E R : Type 0} where
  abbrev pub processing_record : ℕ → IdempotencyRecord E R
  processing_record fingerprint = record {
    request_hash = fingerprint;
    status = processing;
    response = none;
  }

  -- one poll of `_await_existing`; `none` where the request is still in progress
  abbrev pub poll : ℕ → Option (IdempotencyRecord E R) → Option (Outcome (IdempotencyError E) R)
  poll fingerprint none = some (err disappeared)
  poll fingerprint (some r) =
      if not (r.request_hash == fingerprint) then some (err conflict) else elim r.status [
        | processing ↦ none
        | succeeded ↦ elim r.response [
          | none ↦ some (err response_missing)
          | some response ↦ some (ok response)
        ]
        | failed error ↦ some (err (previous_failure error))
      ]

  -- `_await_existing`, with the records that its polls read
  unfoldable pub await_existing :
      ℕ → List (Option (IdempotencyRecord E R)) → Outcome (IdempotencyError E) R
  await_existing fingerprint [] = err timeout
  await_existing fingerprint (seen ∷ later) = elim (poll fingerprint seen) [
    | none ↦ await_existing fingerprint later
    | some outcome ↦ outcome
  ]

module _ {K S E R : Type 0} ⦃e : Keyed K⦄ where
  -- `_reserve`: the new table and `true`, or `false` where the constraint is violated
  unfoldable pub reserve : Shared K S E R → K → ℕ → Shared K S E R × Bool
  reserve s key fingerprint = elim (lookup key s.records) [
    | some known ↦ (s, false)
    | none ↦ (record s { records = insert key (processing_record fingerprint) s.records }, true)
  ]

  -- the statements behind a reservation: the transaction of the operation, or the one that records
  -- its failure
  unfoldable pub perform :
      Shared K S E R → Request K S E R → Shared K S E R × Outcome (IdempotencyError E) R
  perform s q = elim (lookup q.key s.records) [
    | none ↦ (s, err disappeared)
    | some r ↦ elim (q.operation s.rest) [
      | ok (rest, response) ↦ (
        record {
          records =
              insert q.key (record r { status = succeeded; response = some response }) s.records;
          rest = rest;
        },
        ok response,
      )
      | err error ↦ (
        record s { records = insert q.key (record r { status = failed error }) s.records },
        err (operation_failed error),
      )
    ]
  ]

  -- what a request does that does not own its key
  abbrev pub follow :
      Shared K S E R × Bool
      → Request K S E R
      → List (Option (IdempotencyRecord E R))
      → Shared K S E R × Outcome (IdempotencyError E) R
  follow (s, true) q polls = perform s q
  follow (s, false) q polls = (s, await_existing q.fingerprint polls)

  unfoldable pub execute :
      Shared K S E R
      → Request K S E R
      → List (Option (IdempotencyRecord E R))
      → Shared K S E R × Outcome (IdempotencyError E) R
  execute s q polls =
      if not (is_valid_key q.key_length)
      then (s, err invalid_key)
      else follow (reserve s q.key q.fingerprint) q polls
