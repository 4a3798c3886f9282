-- ===== src/Tests/Collection.antt =====
-- Runs of gpu_watch/collection.py and gpu_watch/health.py.
use gpu_watch.Prelude.{false, Option, none, some, ◌≡◌, refl, String}
use gpu_watch.Text.{lower, has_prefix, any_occurs, occurs_in}
use gpu_watch.Collection.{timeout_reason, retry_reason}

abbrev timed_out : Option String
timed_out = some "SSH exit 255: Connection timed out"

timed_out_run : retry_reason false timed_out ≡ some timeout_reason
unfolding retry_reason lower has_prefix any_occurs occurs_in
timed_out_run = refl

denied_run :
    retry_reason false (some "SSH exit 255: Permission denied (publickey), connection closed")
    ≡ none
unfolding retry_reason lower has_prefix any_occurs occurs_in
denied_run = refl
