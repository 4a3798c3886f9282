-- ===== src/Snapshots/DiskUsers.antt =====
-- The users of a disk's snapshot: their texts and numbers, and those of their locations, are bounded.
use gpu_watch.Prelude.{
  ℕ, suc, ◌≤◌, Bool, true, false, ◌&&◌, Option, none, some, List, [], ◌∷◌, String, ◌≡◌, inl, inr,
  arith, Bool-cases, str_eq, length, All,
}
use gpu_watch.Prelude.Signed.{pos}
use gpu_watch.Text.{size}
use gpu_watch.Json.{Json, null, bool, int, float, str, array, object, Fields, Python, get, items_of}
use gpu_watch.Redaction.{Regex, append}
use gpu_watch.Redaction.Labels.{size-append}
use gpu_watch.Snapshots.Process.{bounded_text}
use gpu_watch.Snapshots.Gpu.{bounded_field}
use gpu_watch.Snapshots.Disk.{
  disk_numeric_limit, Location, DiskUser, list_part, all_complete, is_complete, cons_if, path_of,
  sized_location, location_of, locations_of, sized_user, disk_user_of, disk_users_of,
}
use gpu_watch.Snapshots.Bounds.{Each, size-bounded_text, length-take_items}
use gpu_watch.Snapshots.Readings.{bounded_field-le}

pub record IsLocation (location : Location) : Type 0 where
  pub path_size : size location.path ≤ 512
  pub path_known : str_eq location.path "" ≡ false
  pub bytes-le : location.bytes ≤ disk_numeric_limit

pub record IsDiskUser (user : DiskUser) : Type 0 where
  pub user_size : size user.user ≤ 128
  pub user_known : str_eq user.user "" ≡ false
  pub bytes-le : user.bytes ≤ disk_numeric_limit
  pub locations : All IsLocation user.locations
  pub locations-le : length user.locations ≤ 32
  pub path_size : size user.path ≤ 512
  pub whole : user.complete ≡ true → All (λ location. location.complete ≡ true) user.locations

-- One more value, if it is kept.
pub All-cons_if {ℓ κ} :
    {A : Type ℓ} (P : A → Type κ) (kept : Option A) (rest : List A)
    → Each P kept
    → All P rest
    → All P (cons_if kept rest)
All-cons_if P none rest h k = k
All-cons_if P (some a) rest h k = (h, k)

pub length-cons_if {ℓ} :
    {A : Type ℓ} (kept : Option A) (rest : List A) → length (cons_if kept rest) ≤ suc (length rest)
length-cons_if none rest = omega arith
length-cons_if (some a) rest = omega arith

pub length-list_part : (value : Json) (n : ℕ) → length (list_part value n) ≤ n
unfolding list_part
length-list_part (array values) n = length-take_items n (items_of values)
length-list_part null n = omega arith
length-list_part (bool b) n = omega arith
length-list_part (int z) n = omega arith
length-list_part (float s) n = omega arith
length-list_part (str s) n = omega arith
length-list_part (object fields) n = omega arith

module _ (py : Python) (re : Regex) where
  sized_location-IsLocation :
      (legacy : Bool) (location : Fields) (path : String) (bytes : Option ℕ)
      → size path ≤ 512
      → Each (λ n. n ≤ disk_numeric_limit) bytes
      → Each IsLocation (sized_location py re legacy location path bytes)
  sized_location-IsLocation legacy location path none h k = tt
  sized_location-IsLocation legacy location path (some bytes) h k =
      elim (Bool-cases (str_eq path "")) [
        | inl e ↦ rw e tt
        | inr e ↦ rw e (record { path_size = h; path_known = e; bytes-le = k })
      ]

  location_of-IsLocation :
      (legacy : Bool) (item : Json) → Each IsLocation (location_of py re legacy item)
  unfolding location_of
  location_of-IsLocation legacy (object location) =
      sized_location-IsLocation legacy location (bounded_text py re (get "path" location) 512)
        (bounded_field py "bytes" location disk_numeric_limit)
        (size-bounded_text py re (get "path" location) 512)
        (bounded_field-le py "bytes" location disk_numeric_limit)
  location_of-IsLocation legacy null = tt
  location_of-IsLocation legacy (bool b) = tt
  location_of-IsLocation legacy (int z) = tt
  location_of-IsLocation legacy (float s) = tt
  location_of-IsLocation legacy (str s) = tt
  location_of-IsLocation legacy (array values) = tt

  locations_of_lem :
      (legacy : Bool) (items : List Json)
      → All IsLocation (locations_of py re legacy items)
        × (length (locations_of py re legacy items) ≤ length items)
  unfolding locations_of
  locations_of_lem legacy [] = (tt, omega arith)
  locations_of_lem legacy (item ∷ items) =
      let rest = locations_of_lem legacy items in
      let kept = location_of py re legacy item in
      (
        All-cons_if IsLocation kept (locations_of py re legacy items)
            (location_of-IsLocation legacy item) rest.0,
        omega (arith, rest.1, length-cons_if kept (locations_of py re legacy items)),
      )

  all_complete_lem :
      (locations : List Location)
      → all_complete locations ≡ true
      → All (λ location. location.complete ≡ true) locations
  unfolding all_complete
  all_complete_lem [] h = tt
  all_complete_lem (location ∷ locations) h =
      (ground arith, all_complete_lem locations (ground arith))

module _ (py : Python) (re : Regex)
    (short : (n : ℕ) → n ≤ 32 → size (py.show_int (pos n)) ≤ 2) where
  -- The path of a user, if a number of locations takes at most two characters.
  size-path_of :
      (item : Fields) (locations : List Location)
      → All IsLocation locations
      → length locations ≤ 32
      → size (path_of py re item locations) ≤ 512
  unfolding path_of append size
  size-path_of item [] h few = size-bounded_text py re (get "path" item) 512
  size-path_of item (location ∷ []) h few = h.0.path_size
  size-path_of item (location ∷ next ∷ more) h few =
      let count = py.show_int (pos (length (location ∷ next ∷ more))) in
      omega (arith, size-append count " locations", short (length (location ∷ next ∷ more)) few)

  sized_user-IsDiskUser :
      (legacy : Bool) (item : Fields) (user : String) (bytes : Option ℕ)
      → size user ≤ 128
      → Each (λ n. n ≤ disk_numeric_limit) bytes
      → Each IsDiskUser (sized_user py re legacy item user bytes)
  unfolding sized_user
  sized_user-IsDiskUser legacy item user none h k = tt
  sized_user-IsDiskUser legacy item user (some bytes) h k =
      let values = list_part (get "locations" item) 32 in
      let kept = locations_of_lem py re legacy values in
      let few : length (locations_of py re legacy values) ≤ 32 =
        omega (arith, kept.1, length-list_part (get "locations" item) 32) in
      elim (Bool-cases (str_eq user "")) [
        | inl e ↦ rw e tt
        | inr e ↦ rw e record {
          user_size = h;
          user_known = e;
          bytes-le = k;
          locations = kept.0;
          locations-le = few;
          path_size = size-path_of item (locations_of py re legacy values) kept.0 few;
          whole = λ complete. all_complete_lem py re (locations_of py re legacy values) (
              both (is_complete legacy item) (all_complete (locations_of py re legacy values))
                complete);
        }
      ]
    where
      both : (a b : Bool) → (a && b) ≡ true → b ≡ true
      both true b h = h
      both false b h = cc

  disk_user_of-IsDiskUser :
      (legacy : Bool) (item : Json) → Each IsDiskUser (disk_user_of py re legacy item)
  unfolding disk_user_of
  disk_user_of-IsDiskUser legacy (object item) =
      sized_user-IsDiskUser legacy item (bounded_text py re (get "user" item) 128)
        (bounded_field py "bytes" item disk_numeric_limit)
        (size-bounded_text py re (get "user" item) 128)
        (bounded_field-le py "bytes" item disk_numeric_limit)
  disk_user_of-IsDiskUser legacy null = tt
  disk_user_of-IsDiskUser legacy (bool b) = tt
  disk_user_of-IsDiskUser legacy (int z) = tt
  disk_user_of-IsDiskUser legacy (float s) = tt
  disk_user_of-IsDiskUser legacy (str s) = tt
  disk_user_of-IsDiskUser legacy (array values) = tt

  pub disk_users_of_lem :
      (legacy : Bool) (items : List Json)
      → All IsDiskUser (disk_users_of py re legacy items)
        × (length (disk_users_of py re legacy items) ≤ length items)
  unfolding disk_users_of
  disk_users_of_lem legacy [] = (tt, omega arith)
  disk_users_of_lem legacy (item ∷ items) =
      let rest = disk_users_of_lem legacy items in
      let kept = disk_user_of py re legacy item in
      (
        All-cons_if IsDiskUser kept (disk_users_of py re legacy items)
            (disk_user_of-IsDiskUser legacy item) rest.0,
        omega (arith, rest.1, length-cons_if kept (disk_users_of py re legacy items)),
      )
