-- ===== src/Snapshots/Spaces.antt =====
-- What is kept of a disk's snapshot is bounded, and a complete user has complete locations only.
use gpu_watch.Prelude.{ℕ, ◌≤◌, List, [], ◌∷◌, inl, inr, arith, Bool-cases, str_eq, length, All}
use gpu_watch.Prelude.Signed.{pos}
use gpu_watch.Text.{size}
use gpu_watch.Json.{Json, null, bool, int, float, str, array, object, Python, get, text_of}
use gpu_watch.Redaction.{Regex}
use gpu_watch.Redaction.Labels.{size-redact}
use gpu_watch.Snapshots.Process.{bounded_text}
use gpu_watch.Snapshots.Disk.{
  disk_numeric_limit, Filesystem, DiskSnapshot, list_part, filesystem_of, filesystems_of,
  is_legacy_incomplete, error_texts, sanitize_disk_snapshot,
}
use gpu_watch.Snapshots.Bounds.{Each, size-bounded_text}
use gpu_watch.Snapshots.Readings.{bounded_field-le}
use gpu_watch.Snapshots.DiskUsers.{
  IsDiskUser, All-cons_if, length-cons_if, length-list_part, disk_users_of_lem,
}

pub record IsFilesystem (fs : Filesystem) : Type 0 where
  pub filesystem_size : size fs.filesystem ≤ 256
  pub kind_size : size fs.kind ≤ 64
  pub mount_size : size fs.mount ≤ 512
  pub total-le : Each (λ n. n ≤ disk_numeric_limit) fs.total_bytes
  pub used-le : Each (λ n. n ≤ disk_numeric_limit) fs.used_bytes
  pub available-le : Each (λ n. n ≤ disk_numeric_limit) fs.available_bytes
  pub percent-le : Each (λ n. n ≤ 100) fs.use_percent

pub record IsBounded (disk : DiskSnapshot) : Type 0 where
  pub filesystems : All IsFilesystem disk.filesystems
  pub filesystems-le : length disk.filesystems ≤ 128
  pub users : All IsDiskUser disk.users
  pub users-le : length disk.users ≤ 64
  pub errors : All (λ error. size error ≤ 300) disk.errors
  pub errors-le : length disk.errors ≤ 32

nothing_kept : IsBounded (record { filesystems = []; users = []; errors = [] })
nothing_kept = record {
  filesystems = tt;
  filesystems-le = omega arith;
  users = tt;
  users-le = omega arith;
  errors = tt;
  errors-le = omega arith;
}

module _ (py : Python) (re : Regex) where
  filesystem_of-IsFilesystem : (item : Json) → Each IsFilesystem (filesystem_of py re item)
  unfolding filesystem_of
  filesystem_of-IsFilesystem (object item) = record {
    filesystem_size = size-bounded_text py re (get "filesystem" item) 256;
    kind_size = size-bounded_text py re (get "type" item) 64;
    mount_size = size-bounded_text py re (get "mount" item) 512;
    total-le = bounded_field-le py "total_bytes" item disk_numeric_limit;
    used-le = bounded_field-le py "used_bytes" item disk_numeric_limit;
    available-le = bounded_field-le py "available_bytes" item disk_numeric_limit;
    percent-le = bounded_field-le py "use_percent" item 100;
  }
  filesystem_of-IsFilesystem null = tt
  filesystem_of-IsFilesystem (bool b) = tt
  filesystem_of-IsFilesystem (int z) = tt
  filesystem_of-IsFilesystem (float s) = tt
  filesystem_of-IsFilesystem (str s) = tt
  filesystem_of-IsFilesystem (array values) = tt

  filesystems_of_lem :
      (items : List Json)
      → All IsFilesystem (filesystems_of py re items)
        × (length (filesystems_of py re items) ≤ length items)
  unfolding filesystems_of
  filesystems_of_lem [] = (tt, omega arith)
  filesystems_of_lem (item ∷ items) =
      let rest = filesystems_of_lem items in
      let kept = filesystem_of py re item in
      (
        All-cons_if IsFilesystem kept (filesystems_of py re items) (filesystem_of-IsFilesystem item)
            rest.0,
        omega (arith, rest.1, length-cons_if kept (filesystems_of py re items)),
      )

  error_texts_lem :
      (items : List Json)
      → All (λ error. size error ≤ 300) (error_texts py re items)
        × (length (error_texts py re items) ≤ length items)
  unfolding error_texts
  error_texts_lem [] = (tt, omega arith)
  error_texts_lem (item ∷ items) =
      let rest = error_texts_lem items in
      elim (Bool-cases (str_eq (bounded_text py re item 1) "")) [
        | inl e ↦ rw e (rest.0, omega (arith, rest.1))
        | inr e ↦
            rw e
              ((omega (arith, size-redact re (text_of py item) 300), rest.0), omega (arith, rest.1))
      ]

  -- If Python writes a number up to 32 in at most two characters: at most 128 filesystems, 64 users
  -- with 32 locations each, and 32 errors are kept. The device, kind and mount of a filesystem have at
  -- most 256, 64 and 512 characters, its three sizes are at most 2^63 - 1, and its percentage is at most
  -- 100. A user's name has 1 to 128 characters, a location's path 1 to 512, the user's path at most 512,
  -- their bytes are at most 2^63 - 1, and an error has at most 300 characters. A user that counts as
  -- complete has complete locations only.
  pub sanitize_disk_snapshot-IsBounded :
      (disk : Json)
      → ((n : ℕ) → n ≤ 32 → size (py.show_int (pos n)) ≤ 2)
      → IsBounded (sanitize_disk_snapshot py re disk)
  unfolding sanitize_disk_snapshot
  sanitize_disk_snapshot-IsBounded (object disk) short =
      let fs = filesystems_of_lem (list_part (get "filesystems" disk) 128) in
      let errors = list_part (get "errors" disk) 32 in
      let users =
        disk_users_of_lem py re short (is_legacy_incomplete py re errors)
          (list_part (get "users" disk) 64) in
      let texts = error_texts_lem errors in
      record {
        filesystems = fs.0;
        filesystems-le = omega (arith, fs.1, length-list_part (get "filesystems" disk) 128);
        users = users.0;
        users-le = omega (arith, users.1, length-list_part (get "users" disk) 64);
        errors = texts.0;
        errors-le = omega (arith, texts.1, length-list_part (get "errors" disk) 32);
      }
  sanitize_disk_snapshot-IsBounded null short = nothing_kept
  sanitize_disk_snapshot-IsBounded (bool b) short = nothing_kept
  sanitize_disk_snapshot-IsBounded (int z) short = nothing_kept
  sanitize_disk_snapshot-IsBounded (float s) short = nothing_kept
  sanitize_disk_snapshot-IsBounded (str s) short = nothing_kept
  sanitize_disk_snapshot-IsBounded (array values) short = nothing_kept
