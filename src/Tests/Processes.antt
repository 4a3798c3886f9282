-- ===== src/Tests/Processes.antt =====
-- Runs of the attribution functions of server.py.
use gpu_watch.Prelude.{ℕ, not, ◌&&◌, ◌⊎◌, none, some, String, ◌≡◌, refl, List, [], ◌∷◌}
use gpu_watch.Text.{clean_text, is_space}
use gpu_watch.Processes.{
  Process, user_of, any_unknown, attributable_process_users, carry_owner,
  carry_verified_process_owners, same_process_cohort, same_generation, identity_of,
}
use gpu_watch.Processes.Charge.{contains, owns, contains-attributable}
use gpu_watch.Processes.Carry.{Proves, carry_owner_sound}

abbrev job : ℕ → String → String → Process
job pid user ticks = record {
  pid = pid;
  user = user;
  process_name = "python";
  command_summary = "python";
  used_memory = some 4096;
  started = "2026-10-01 09:00";
  container_name = "";
  container_id = none;
  start_identity = some ticks;
}

abbrev before : List Process
before = job 41 "kim" "1001" ∷ job 42 "lee" "1002" ∷ []

-- PID 42 has been reused: its start ticks differ.
abbrev after : List Process
after = job 41 "" "1001" ∷ job 42 "?" "9009" ∷ []

owners_known : attributable_process_users before ≡ "kim" ∷ "lee" ∷ []
unfolding attributable_process_users clean_text is_space
owners_known = refl

nobody_charged : attributable_process_users after ≡ []
unfolding attributable_process_users clean_text is_space
nobody_charged = refl

reused_pid_is_not_carried :
    carry_verified_process_owners before after ≡ job 41 "kim" "1001" ∷ job 42 "?" "9009" ∷ []
unfolding carry_verified_process_owners same_process_cohort same_generation identity_of clean_text
    is_space
reused_pid_is_not_carried = refl

contains-attributable_example :
    contains "kim" (attributable_process_users before)
    ≡ (not (any_unknown before) && owns "kim" before)
contains-attributable_example = contains-attributable "kim" before

carry_owner_sound_example :
    (carry_owner before after (job 41 "" "1001") ≡ job 41 "" "1001")
    ⊎ ((old : Process) × Proves before after (job 41 "" "1001") old
        × (carry_owner before after (job 41 "" "1001")
            ≡ record (job 41 "" "1001") { user = user_of old }))
carry_owner_sound_example = carry_owner_sound before after (job 41 "" "1001")
