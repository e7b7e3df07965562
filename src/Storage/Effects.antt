-- ===== src/Storage/Effects.antt =====
-- The store of packages/object_storage/store.py and the tables beside it, as the state of a service call
-- that may raise: what it has changed before it raises stays.
use evidenceclass_agent.Base.{
  Option, none, some, ℕ, ◌+◌, String, Bool, true, false, List, [], ◌∷◌, if◌then◌else◌, ◌==◌, ℕ_eq,
  String_eq,
}
use evidenceclass_agent.Base.Dict.{Items, lookup, insert, remove}
use evidenceclass_agent.Base.Outcome.{Outcome, ok, err}

-- the exceptions: two of the service, Python's ValueError, and one of the store or of the database
pub data StorageError : Type 0 where
  resource_not_found validation_error value_error unavailable : StorageError

pub record StoredObject : Type 0 where
  pub data_bytes : List ℕ
  pub content_type : String

pub record MediaAsset : Type 0 where
  pub job_id : String
  pub role : String
  pub object_key : String
  pub sha256 : String
  pub mime : String
  pub size_bytes : ℕ

pub record Artifact : Type 0 where
  pub job_id : String
  pub kind : String
  pub object_key : String
  pub sha256 : String
  pub version : String
  pub size_bytes : ℕ
  pub mime : String

pub record StorageJob : Type 0 where
  pub workspace_id : String
  -- `deleted_at` is set
  pub is_deleted : Bool
  pub purge_after : Option ℕ
  pub objects_purged_at : Option ℕ

-- the store, the tables, the number of calls so far, and the two lists that `publish_artifacts` keeps
pub record World : Type 0 where
  pub objects : Items String StoredObject
  pub jobs : Items String StorageJob
  pub assets : Items String MediaAsset
  pub artifacts : Items String Artifact
  pub calls : ℕ
  pub temporary_keys : List String
  pub final_keys : List String

-- the calls that raise, by their number
pub record Faults : Type 0 where
  pub puts : ℕ → Bool
  pub copies : ℕ → Bool
  pub removes : ℕ → Bool
  pub commits : ℕ → Bool

abbrev pub Run : Type 0 → Type 0
Run A = World → World × Outcome StorageError A

abbrev pub return : {A : Type 0} → A → Run A
return a world = (world, ok a)

abbrev pub raise : {A : Type 0} → StorageError → Run A
raise e world = (world, err e)

abbrev behind :
    {A B : Type 0} → World → Outcome StorageError A → (A → Run B) → World × Outcome StorageError B
behind world (ok a) rest = rest a world
behind world (err e) rest = (world, err e)

infixl 5 ◌>>=◌
abbrev pub ◌>>=◌ : {A B : Type 0} → Run A → (A → Run B) → Run B
(m >>= rest) world = behind (m world).0 (m world).1 rest

infixl 5 ◌>>◌
abbrev pub ◌>>◌ : {B : Type 0} → Run (Unit {0}) → Run B → Run B
first >> second = first >>= λ _. second

abbrev pub raise_if : Bool → StorageError → Run (Unit {0})
raise_if test e = if test then raise e else return tt

abbrev handled :
    {A : Type 0} → World → Outcome StorageError A → Run (Unit {0}) → World × Outcome StorageError A
handled world (ok a) handler = (world, ok a)
handled world (err e) handler = (handler >>= λ _. raise e) world

-- `try: ... except Exception: handler; raise`
abbrev pub try_except : {A : Type 0} → Run A → Run (Unit {0}) → Run A
try_except body handler world = handled (body world).0 (body world).1 handler

abbrev pub tick : World → World
tick world = record world { calls = world.calls + 1 }

-- a call that raises when the test says so, and otherwise changes the world
abbrev pub perform : (ℕ → Bool) → (World → World) → Run (Unit {0})
perform fails change world =
    if fails world.calls then (tick world, err unavailable) else (change (tick world), ok tt)

abbrev pub object_of : List ℕ → String → StoredObject
object_of data_bytes mime = record { data_bytes = data_bytes; content_type = mime }

abbrev pub written : String → StoredObject → World → World
written key object world = record world { objects = insert key object world.objects }

-- `InMemoryObjectStore.put`
abbrev pub put : Faults → String → List ℕ → String → Run (Unit {0})
put faults key data_bytes mime = perform faults.puts (written key (object_of data_bytes mime))

abbrev pub copied : String → String → World → World
copied source destination world = elim (lookup source world.objects) [
  | none ↦ world
  | some object ↦ written destination object world
]

-- the test of a `KeyError`
abbrev pub is_missing : String → World → Bool
is_missing key world = elim (lookup key world.objects) [ none ↦ true | some object ↦ false ]

-- `InMemoryObjectStore.copy`
abbrev pub copy : Faults → String → String → Run (Unit {0})
copy faults source destination world =
    if is_missing source world
    then (tick world, err unavailable)
    else perform faults.copies (copied source destination) world

abbrev pub erased : String → World → World
erased key world = record world { objects = remove key world.objects }

-- `InMemoryObjectStore.remove`
abbrev pub remove_object : Faults → String → Run (Unit {0})
remove_object faults key = perform faults.removes (erased key)

-- `for key in keys: self._store.remove(key)`
abbrev pub remove_all : Faults → List String → Run (Unit {0})
remove_all faults [] = return tt
remove_all faults (key ∷ keys) = remove_object faults key >> remove_all faults keys

-- `InMemoryObjectStore.stat` and `read`: the object, or a `KeyError`
abbrev pub read : String → Run StoredObject
read key world = elim (lookup key world.objects) [
  | none ↦ (world, err unavailable)
  | some object ↦ (world, ok object)
]

-- `_find_job`
abbrev pub find_job : (workspace_id job_id : String) → Run StorageJob
find_job workspace_id job_id world = elim (lookup job_id world.jobs) [
  | none ↦ (world, err resource_not_found)
  | some job ↦
      if job.workspace_id == workspace_id then (world, ok job) else (world, err resource_not_found)
]
