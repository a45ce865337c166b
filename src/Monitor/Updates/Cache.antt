-- ===== src/Monitor/Updates/Cache.antt =====
-- What pc/src/pywinhello/monitor/updater.py keeps between checks: the installed version in memory, and the tag of
-- the releases page in a file. The metadata of the package, the file and its JSON are parameters.
use pywinhello.Prelude.{
  Bool, Elem, List, Option, [], if◌then◌else◌, inl, inr, none, refl, some, true, ◌∷◌, ◌≡◌,
}
use pywinhello.Prelude.Result.{Result, err, ok, ◌>>=◌}
use pywinhello.Prelude.Text.{Text, codes, text_eq}
use pywinhello.Prelude.Value.{Value, end, field, find, find_or, get_field, null, obj, str}
use pywinhello.Serial.Protocol.Responses.{content}

-- get_current_version: the version that is kept after the first call.
pub get_current_version : Result Text → Option Text → Text × Option Text
get_current_version metadata (some v) = (v, some v)
get_current_version (ok v) none = (v, some v)
get_current_version (err e) none = (codes "0.0.0", some (codes "0.0.0"))

-- The answers to several calls, each with what the metadata would say.
current_versions : List (Result Text) → Option Text → List Text
current_versions [] kept = []
current_versions (metadata ∷ later) kept =
    let now = get_current_version metadata kept in now.0 ∷ current_versions later now.1

-- The cache file: none where it is not there, an error where it cannot be read.
abbrev pub CacheFile : Type 0
CacheFile = Option (Result Text)

-- _load_etag; null stands for None
pub load_etag : (Text → Result Value) → CacheFile → Value
load_etag loads none = null
load_etag loads (some file) =
    elim (do content ← file; cached ← loads content; get_field cached (codes "etag") null) [
      | ok tag ↦ tag
      | err e ↦ null
    ]

-- _save_etag; a failed write is logged.
pub save_etag : (Value → Text) → Bool → Text → CacheFile → CacheFile
save_etag dumps can_write tag file =
    if can_write then some (ok (dumps (obj (field (codes "etag") (str tag) end)))) else file

-- Once a version is known it is the answer to every later call, whatever the metadata says then.
current_versions_same :
    (later : List (Result Text)) (v w : Text) → Elem w (current_versions later (some v)) → w ≡ v
unfolding current_versions get_current_version
current_versions_same [] v w e = absurd e
current_versions_same (metadata ∷ later) v w (inl e) = e
current_versions_same (metadata ∷ later) v w (inr e) = current_versions_same later v w e

-- Where JSON is read back as it was written, the tag that was saved is loaded.
pub load_etag-save_etag :
    (loads : Text → Result Value) (dumps : Value → Text) (tag : Text) (file : CacheFile)
    → loads (dumps (obj (field (codes "etag") (str tag) end)))
      ≡ ok (obj (field (codes "etag") (str tag) end))
    → load_etag loads (save_etag dumps true tag file) ≡ str tag
unfolding load_etag save_etag get_field find_or find text_eq
load_etag-save_etag loads dumps tag file h = rw (h, load_etag) refl
