-- ===== src/Errors.antt =====
-- common/err.rs: the program's error type, and the errors of the database layer that it wraps.
use supertag.Base.{Text, Result, ok, err}

-- What `rusqlite::Error` tells apart where the program looks at it.
pub data SqlError : Type 0 where
  constraint_violation : SqlError
  query_returned_no_rows : SqlError
  other_failure : SqlError

-- The boxed errors behind `IOError` and `Other`.
pub data Cause : Type 0 where
  sql : SqlError → Cause
  io : Cause
  nix : Cause
  foreign : Cause

pub data STagError : Type 0 where
  bad_tag : Text → STagError
  bad_tag_group : Text → STagError
  database_error : SqlError → STagError
  not_enough_tags : STagError
  invalid_path : Text → STagError
  non_collection_path : Text → STagError
  bad_device_file : Text → STagError
  path_exists : Text → STagError
  recursive_link : Text → STagError
  io_error : Cause → STagError
  other : Cause → STagError

abbrev pub STagResult {ℓ} : Type ℓ → Type ℓ
STagResult A = Result STagError A

-- `From<rusqlite::Error>`, as `?` applies it.
unfoldable pub from_sql {ℓ} : {A : Type ℓ} → Result SqlError A → STagResult A
from_sql (ok a) = ok a
from_sql (err e) = err (database_error e)
