-- ===== src/Admission/Window.antt =====
-- The entries of the guard of apps/worker/admission.py: what pruning, appending and releasing do to
-- their counts, their weights and their order in time.
use evidenceclass_agent.Base.{
  ℕ, ◌+◌, ◌≤◌, ◌<◌, ◌≡◌, refl, String, Option, List, [], ◌∷◌, ◌++◌, arith, String_eq, if◌then◌else◌,
  inl, inr, Bool-cases,
}
use evidenceclass_agent.Admission.Estimate.{Entry}
use evidenceclass_agent.Admission.{
  is_expired, drop_expired, queued_of, total_weight, is_released, release_loop,
}

-- Adding at the end adds to the count of its own workspace, and to the weight.
pub queued_of-append :
    (w : String) (xs ys : List Entry) → queued_of w (xs ++ ys) ≡ queued_of w xs + queued_of w ys
queued_of-append w [] ys = omega arith
queued_of-append w (x ∷ xs) ys = omega (arith, queued_of-append w xs ys)

pub total_weight-append :
    (xs ys : List Entry) → total_weight (xs ++ ys) ≡ total_weight xs + total_weight ys
total_weight-append [] ys = omega arith
total_weight-append (x ∷ xs) ys = omega (arith, total_weight-append xs ys)

pub queued_of-drop_expired-le :
    (w : String) (ttl now : ℕ) (xs : List Entry)
    → queued_of w (drop_expired ttl now xs) ≤ queued_of w xs
unfolding drop_expired
queued_of-drop_expired-le w ttl now [] = omega arith
queued_of-drop_expired-le w ttl now (x ∷ xs) =
    ground (arith, queued_of-drop_expired-le w ttl now xs)

pub total_weight-drop_expired-le :
    (ttl now : ℕ) (xs : List Entry) → total_weight (drop_expired ttl now xs) ≤ total_weight xs
unfolding drop_expired
total_weight-drop_expired-le ttl now [] = omega arith
total_weight-drop_expired-le ttl now (x ∷ xs) =
    ground (arith, total_weight-drop_expired-le ttl now xs)

pub queued_of-release-le :
    (w v : String) (weight : Option ℕ) (xs : List Entry)
    → queued_of w (release_loop v weight xs).0 ≤ queued_of w xs
unfolding release_loop
queued_of-release-le w v weight [] = omega arith
queued_of-release-le w v weight (x ∷ xs) = ground (arith, queued_of-release-le w v weight xs)

pub total_weight-release-le :
    (v : String) (weight : Option ℕ) (xs : List Entry)
    → total_weight (release_loop v weight xs).0 ≤ total_weight xs
unfolding release_loop
total_weight-release-le v weight [] = omega arith
total_weight-release-le v weight (x ∷ xs) = ground (arith, total_weight-release-le v weight xs)

-- in the order of their times, none before `t`
abbrev pub SortedFrom : ℕ → List Entry → Type 0
SortedFrom t [] = Unit
SortedFrom t (x ∷ xs) = (t ≤ x.at) × SortedFrom x.at xs

-- the reference for pruning: every entry is tested
abbrev pub live : ℕ → ℕ → List Entry → List Entry
live ttl now [] = []
live ttl now (x ∷ xs) =
    let rest = live ttl now xs in if is_expired ttl now x then rest else x ∷ rest

live_of_SortedFrom :
    (ttl now t : ℕ) (xs : List Entry) → SortedFrom t xs → now ≤ t + ttl → live ttl now xs ≡ xs
live_of_SortedFrom ttl now t [] s h = refl
live_of_SortedFrom ttl now t (x ∷ xs) s h = ground (arith, live_of_SortedFrom ttl now x.at xs s.1)

-- On entries in the order of their times, to stop at the first live one is to drop every expired one.
pub drop_expired-live :
    (ttl now t : ℕ) (xs : List Entry) → SortedFrom t xs → drop_expired ttl now xs ≡ live ttl now xs
unfolding drop_expired
drop_expired-live ttl now t [] s = refl
drop_expired-live ttl now t (x ∷ xs) s =
    ground (arith, drop_expired-live ttl now x.at xs s.1, live_of_SortedFrom ttl now x.at xs s.1)

pub SortedFrom-mono : (t u : ℕ) (xs : List Entry) → t ≤ u → SortedFrom u xs → SortedFrom t xs
SortedFrom-mono t u [] h s = tt
SortedFrom-mono t u (x ∷ xs) h s = (omega arith, s.1)

pub SortedFrom-drop_expired :
    (ttl now t : ℕ) (xs : List Entry) → SortedFrom t xs → SortedFrom t (drop_expired ttl now xs)
unfolding drop_expired
SortedFrom-drop_expired ttl now t [] s = tt
SortedFrom-drop_expired ttl now t (x ∷ xs) s = elim (Bool-cases (is_expired ttl now x)) [
  | inl old ↦ rw old (SortedFrom-mono t x.at _ s.0 (SortedFrom-drop_expired ttl now x.at xs s.1))
  | inr new ↦ rw new s
]

pub SortedFrom-release :
    (v : String) (weight : Option ℕ) (t : ℕ) (xs : List Entry)
    → SortedFrom t xs
    → SortedFrom t (release_loop v weight xs).0
unfolding release_loop
SortedFrom-release v weight t [] s = tt
SortedFrom-release v weight t (x ∷ xs) s = elim (Bool-cases (is_released v weight x)) [
  | inl gone ↦ rw gone (SortedFrom-mono t x.at _ s.0 (SortedFrom-release v weight x.at xs s.1))
  | inr kept ↦ rw kept (s.0, SortedFrom-release v weight x.at xs s.1)
]

-- the time of the last entry, or `t` with none
abbrev pub last_at : ℕ → List Entry → ℕ
last_at t [] = t
last_at t (x ∷ xs) = last_at x.at xs

pub SortedFrom-append :
    (t : ℕ) (xs : List Entry) (y : Entry)
    → SortedFrom t xs
    → last_at t xs ≤ y.at
    → SortedFrom t (xs ++ y ∷ [])
SortedFrom-append t [] y s h = (h, tt)
SortedFrom-append t (x ∷ xs) y s h = (s.0, SortedFrom-append x.at xs y s.1 h)

-- no entry is later than `t`
abbrev pub AllBy : ℕ → List Entry → Type 0
AllBy t [] = Unit
AllBy t (x ∷ xs) = (x.at ≤ t) × AllBy t xs

pub AllBy-mono : (t u : ℕ) (xs : List Entry) → t ≤ u → AllBy t xs → AllBy u xs
AllBy-mono t u [] h s = tt
AllBy-mono t u (x ∷ xs) h s = (omega arith, AllBy-mono t u xs h s.1)

pub last_at-le : (t u : ℕ) (xs : List Entry) → t ≤ u → AllBy u xs → last_at t xs ≤ u
last_at-le t u [] h s = h
last_at-le t u (x ∷ xs) h s = last_at-le x.at u xs s.0 s.1

pub AllBy-append : (t : ℕ) (xs ys : List Entry) → AllBy t xs → AllBy t ys → AllBy t (xs ++ ys)
AllBy-append t [] ys h k = k
AllBy-append t (x ∷ xs) ys h k = (h.0, AllBy-append t xs ys h.1 k)

pub AllBy-drop_expired :
    (ttl now t : ℕ) (xs : List Entry) → AllBy t xs → AllBy t (drop_expired ttl now xs)
unfolding drop_expired
AllBy-drop_expired ttl now t [] h = tt
AllBy-drop_expired ttl now t (x ∷ xs) h = elim (Bool-cases (is_expired ttl now x)) [
  | inl old ↦ rw old (AllBy-drop_expired ttl now t xs h.1)
  | inr new ↦ rw new h
]

pub AllBy-release :
    (v : String) (weight : Option ℕ) (t : ℕ) (xs : List Entry)
    → AllBy t xs
    → AllBy t (release_loop v weight xs).0
unfolding release_loop
AllBy-release v weight t [] h = tt
AllBy-release v weight t (x ∷ xs) h = elim (Bool-cases (is_released v weight x)) [
  | inl gone ↦ rw gone (AllBy-release v weight t xs h.1)
  | inr kept ↦ rw kept (h.0, AllBy-release v weight t xs h.1)
]

-- when all that is in flight has outlived its time to live, pruning empties the window
pub drop_expired_all :
    (ttl now t : ℕ) (xs : List Entry) → AllBy t xs → t + ttl < now → drop_expired ttl now xs ≡ []
unfolding drop_expired
drop_expired_all ttl now t [] h late = refl
drop_expired_all ttl now t (x ∷ xs) h late = ground (arith, drop_expired_all ttl now t xs h.1)
