-- ===== src/ObjectStorage.antt =====
-- The object storage: src/shared/infrastructure/storage/s3-object-storage.adapter.ts. What S3
-- answers to a command is an argument; an exception of it is logged and thrown on.
pub mod Keys
use bet_advise.Base.{
  ℕ, Bool, true, false, ◌||◌, Option, none, some, List, [], ◌∷◌, map, length, ltb, ◌==◌,
  if◌then◌else◌,
}
use bet_advise.Base.Exec.{Exec, ok, throw, ◌>>=◌}
use bet_advise.Base.Text.{Text, codes, is_empty, includes}

pub data StorageError : Type 0 where
  unsafe_key : StorageError
  key_too_long : StorageError
  key_empty : StorageError
  body_empty : StorageError
  refused : Text → StorageError

-- `replace(/\\/g, '/')` on a code unit: 92 is the backslash.
abbrev to_slash : ℕ → ℕ
to_slash c = if c == 92 then b'/' else c

-- `while (normalized.startsWith('/')) normalized = normalized.slice(1);`
strip_slashes : Text → Text
strip_slashes [] = []
strip_slashes (c ∷ s) = let rest = strip_slashes s in if c == b'/' then rest else c ∷ s

-- The key contains `../` or `..\`; a last segment `..` is not looked for.
abbrev pub climbs : Text → Bool
climbs key = includes key (codes "../") || includes key (b'.' ∷ b'.' ∷ 92 ∷ [])

-- `validateAndNormalizeKey`
unfoldable pub validate_and_normalize_key : Text → Exec StorageError Text
unfolding strip_slashes
validate_and_normalize_key key =
    let normalized = strip_slashes (map to_slash key) in
    if climbs key
    then throw unsafe_key
    else if ltb 1024 (length normalized)
    then throw key_too_long
    else if is_empty normalized
    then throw key_empty
    else ok normalized

-- What S3 returns for an object.
pub record Response (Metadata Body : Type 0) : Type 0 where
  pub body : Option Body
  pub content_type : Option Text
  pub metadata : Option Metadata

pub record Object (Metadata Body : Type 0) : Type 0 where
  pub body : Body
  pub content_type : Option Text
  pub metadata : Option Metadata

-- `deleteObject`, where `send` is the command under the normalised key.
unfoldable pub delete_object :
    (Text → Exec StorageError (Unit {0})) → Text → Exec StorageError (Unit {0})
delete_object send key = do clean ← validate_and_normalize_key key; send clean

module _ {Metadata Body : Type 0} where
  -- `putObject`, in the same way.
  unfoldable pub put_object :
      (Text → Body → Option Text → Option Metadata → Exec StorageError (Unit {0}))
      → Text
      → Body
      → Option Text
      → Option Metadata
      → Exec StorageError (Unit {0})
  put_object send key body content_type metadata = do
    clean ← validate_and_normalize_key key
    send clean body content_type metadata

  object_of : Response Metadata Body → Exec StorageError (Object Metadata Body)
  object_of response = elim response.body [
    | none ↦ throw body_empty
    | some body ↦
        ok (record {
          body = body;
          content_type = response.content_type;
          metadata = response.metadata;
        })
  ]

  -- `getObject`; the reading of the stream is part of what S3 answers.
  unfoldable pub get_object :
      (Text → Exec StorageError (Response Metadata Body))
      → Text
      → Exec StorageError (Object Metadata Body)
  unfolding object_of
  get_object send key = do
    clean ← validate_and_normalize_key key
    response ← send clean
    object_of response

  -- `headObject`: the content type and the metadata.
  unfoldable pub head_object :
      (Text → Exec StorageError (Response Metadata Body))
      → Text
      → Exec StorageError (Option Text × Option Metadata)
  head_object send key = do
    clean ← validate_and_normalize_key key
    response ← send clean
    ok (response.content_type, response.metadata)
