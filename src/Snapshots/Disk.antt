-- ===== src/Snapshots/Disk.antt =====
-- gpu_watch/processes.py, sanitize_disk_snapshot.
use gpu_watch.Prelude.{
  ℕ, Bool, true, false, not, ◌&&◌, ◌||◌, Option, none, some, List, [], ◌∷◌, String, str_eq,
  if◌then◌else◌, length,
}
use gpu_watch.Prelude.Signed.{pos}
use gpu_watch.Text.{lower, any_occurs}
use gpu_watch.Json.{
  Json, bool, array, object, Fields, Python, find_field, get, items_of, take_items, str_of, text_of,
}
use gpu_watch.Redaction.{Regex, append, redact_sensitive_text}
use gpu_watch.Snapshots.Process.{bounded_text}
use gpu_watch.Snapshots.Gpu.{bounded_field}

abbrev pub disk_numeric_limit : ℕ
disk_numeric_limit = 9223372036854775807

pub record Filesystem : Type 0 where
  pub filesystem : String
  pub kind : String
  pub mount : String
  pub total_bytes : Option ℕ
  pub used_bytes : Option ℕ
  pub available_bytes : Option ℕ
  pub use_percent : Option ℕ

pub record Location : Type 0 where
  pub path : String
  pub bytes : ℕ
  pub complete : Bool

pub record DiskUser : Type 0 where
  pub user : String
  pub bytes : ℕ
  pub complete : Bool
  pub locations : List Location
  pub path : String

pub record DiskSnapshot : Type 0 where
  pub filesystems : List Filesystem
  pub users : List DiskUser
  pub errors : List String

-- `values[:n] if isinstance(values, list) else []`
unfoldable pub list_part : Json → ℕ → List Json
unfolding take_items items_of
list_part (array values) n = take_items n (items_of values)
list_part _ n = []

unfoldable pub all_complete : List Location → Bool
all_complete [] = true
all_complete (location ∷ locations) = location.complete && all_complete locations

abbrev pub is_true : Json → Bool
is_true (bool b) = b
is_true _ = false

abbrev pub true_or : Bool → Option Json → Bool
true_or default none = default
true_or default (some value) = is_true value

-- `fields.get("complete", not legacy_incomplete) is True`
unfoldable pub is_complete : Bool → Fields → Bool
unfolding find_field
is_complete legacy_incomplete fields =
    true_or (not legacy_incomplete) (find_field "complete" fields)

abbrev pub cons_if {ℓ} : {A : Type ℓ} → Option A → List A → List A
cons_if none rest = rest
cons_if (some a) rest = a ∷ rest

module _ (py : Python) (re : Regex) where
  unfoldable pub filesystem_of : Json → Option Filesystem
  unfolding bounded_text bounded_field get
  filesystem_of (object item) = some record {
    filesystem = bounded_text py re (get "filesystem" item) 256;
    kind = bounded_text py re (get "type" item) 64;
    mount = bounded_text py re (get "mount" item) 512;
    total_bytes = bounded_field py "total_bytes" item disk_numeric_limit;
    used_bytes = bounded_field py "used_bytes" item disk_numeric_limit;
    available_bytes = bounded_field py "available_bytes" item disk_numeric_limit;
    use_percent = bounded_field py "use_percent" item 100;
  }
  filesystem_of _ = none

  unfoldable pub filesystems_of : List Json → List Filesystem
  unfolding filesystem_of
  filesystems_of [] = []
  filesystems_of (item ∷ items) = cons_if (filesystem_of item) (filesystems_of items)

  -- `any(word in str(error).lower() for word in ...)` for some of the errors
  unfoldable pub is_legacy_incomplete : List Json → Bool
  unfolding any_occurs str_of lower
  is_legacy_incomplete [] = false
  is_legacy_incomplete (error ∷ errors) =
      any_occurs ("partial" ∷ "permission" ∷ "timeout" ∷ "unavailable" ∷ [])
        (lower (str_of py error))
      || is_legacy_incomplete errors

  abbrev pub sized_location : Bool → Fields → String → Option ℕ → Option Location
  sized_location legacy location path none = none
  sized_location legacy location path (some size) =
      if str_eq path ""
      then none
      else some (record { path = path; bytes = size; complete = is_complete legacy location })

  unfoldable pub location_of : Bool → Json → Option Location
  unfolding bounded_text bounded_field is_complete get
  location_of legacy (object location) =
      sized_location legacy location (bounded_text py re (get "path" location) 512)
        (bounded_field py "bytes" location disk_numeric_limit)
  location_of legacy _ = none

  unfoldable pub locations_of : Bool → List Json → List Location
  unfolding location_of
  locations_of legacy [] = []
  locations_of legacy (item ∷ items) = cons_if (location_of legacy item) (locations_of legacy items)

  -- The path that stands for the locations.
  unfoldable pub path_of : Fields → List Location → String
  unfolding bounded_text append get
  path_of item [] = bounded_text py re (get "path" item) 512
  path_of item (location ∷ []) = location.path
  path_of item (location ∷ next ∷ more) =
      append (py.show_int (pos (length (location ∷ next ∷ more)))) " locations"

  unfoldable pub sized_user : Bool → Fields → String → Option ℕ → Option DiskUser
  unfolding locations_of list_part path_of is_complete all_complete get
  sized_user legacy item user none = none
  sized_user legacy item user (some size) =
      let locations = locations_of legacy (list_part (get "locations" item) 32) in
      if str_eq user ""
      then none
      else some record {
        user = user;
        bytes = size;
        complete = is_complete legacy item && all_complete locations;
        locations = locations;
        path = path_of item locations;
      }

  unfoldable pub disk_user_of : Bool → Json → Option DiskUser
  unfolding sized_user bounded_text bounded_field get
  disk_user_of legacy (object item) =
      sized_user legacy item (bounded_text py re (get "user" item) 128)
        (bounded_field py "bytes" item disk_numeric_limit)
  disk_user_of legacy _ = none

  unfoldable pub disk_users_of : Bool → List Json → List DiskUser
  unfolding disk_user_of
  disk_users_of legacy [] = []
  disk_users_of legacy (item ∷ items) =
      cons_if (disk_user_of legacy item) (disk_users_of legacy items)

  -- `[_redacted_text(item, 300) for item in errors[:32] if _text(item, 1)]`
  unfoldable pub error_texts : List Json → List String
  unfolding bounded_text redact_sensitive_text text_of
  error_texts [] = []
  error_texts (item ∷ items) =
      let rest = error_texts items in
      if str_eq (bounded_text py re item 1) ""
      then rest
      else redact_sensitive_text re (text_of py item) 300 ∷ rest

  unfoldable pub sanitize_disk_snapshot : Json → DiskSnapshot
  unfolding filesystems_of is_legacy_incomplete disk_users_of error_texts list_part get
  sanitize_disk_snapshot (object disk) =
      let errors = list_part (get "errors" disk) 32 in
      record {
        filesystems = filesystems_of (list_part (get "filesystems" disk) 128);
        users = disk_users_of (is_legacy_incomplete errors) (list_part (get "users" disk) 64);
        errors = error_texts errors;
      }
  sanitize_disk_snapshot _ = record { filesystems = []; users = []; errors = [] }
