-- ===== src/Storage/Formats.antt =====
-- The checks of a content's type in packages/object_storage/service.py.
use evidenceclass_agent.Base.{
  ℕ, ◌-◌, String, Bool, true, false, ◌&&◌, ◌||◌, List, [], ◌∷◌, length, take, drop, leb,
  if◌then◌else◌, ◌==◌, ℕ_eq, String_eq,
}
use text.Mathlib.Text.{starts_with as text_starts}

-- the library's decoders: whether they accept the bytes
pub record Decoders : Type 0 where
  pub json_loads : List ℕ → Bool
  pub utf8 : List ℕ → Bool

abbrev pub starts_with : List ℕ → List ℕ → Bool
starts_with data_bytes [] = true
starts_with [] (p ∷ prefix) = false
starts_with (b ∷ data_bytes) (p ∷ prefix) = b == p && starts_with data_bytes prefix

abbrev pub ends_with : List ℕ → List ℕ → Bool
ends_with data_bytes suffix =
    leb (length suffix) (length data_bytes)
    && starts_with (drop (length data_bytes - length suffix) data_bytes) suffix

-- `ALLOWED_MIME_TYPES`
abbrev pub is_allowed : String → Bool
is_allowed mime =
    mime == "application/json"
    || mime == "audio/wav"
    || mime == "image/jpeg"
    || mime == "image/png"
    || mime == "text/csv"
    || mime == "text/html"
    || mime == "text/markdown"
    || mime == "text/plain"
    || mime == "video/mp4"

-- `_looks_like`
unfoldable pub looks_like : Decoders → List ℕ → String → Bool
looks_like decoders data_bytes mime =
    if mime == "image/png"
    then starts_with data_bytes (137 ∷ 80 ∷ 78 ∷ 71 ∷ 13 ∷ 10 ∷ 26 ∷ 10 ∷ [])
    else if mime == "image/jpeg"
    then starts_with data_bytes (255 ∷ 216 ∷ 255 ∷ []) && ends_with data_bytes (255 ∷ 217 ∷ [])
    else if mime == "video/mp4"
    then (leb 12 (length data_bytes)
        && starts_with (take 8 (drop 4 data_bytes)) (102 ∷ 116 ∷ 121 ∷ 112 ∷ []))
    else if mime == "audio/wav"
    then (leb 12 (length data_bytes)
        && (starts_with data_bytes (82 ∷ 73 ∷ 70 ∷ 70 ∷ [])
            && starts_with (drop 8 data_bytes) (87 ∷ 65 ∷ 86 ∷ 69 ∷ [])))
    else if mime == "application/json"
    then decoders.json_loads data_bytes
    else if text_starts mime "text/"
    then decoders.utf8 data_bytes
    else false
