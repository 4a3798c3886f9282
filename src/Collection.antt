-- ===== src/Collection.antt =====
-- gpu_watch/collection.py (which failed probes are retried) and gpu_watch/health.py (the cause that an
-- event names). An error text is the diagnostic of a probe.
pub mod Laws
use gpu_watch.Prelude.{ℕ, Bool, not, ◌||◌, Option, none, some, List, [], ◌∷◌, String, if◌then◌else◌}
use gpu_watch.Text.{codes, lower, has_prefix, any_occurs, text_or}

pub data Reason : Type 0 where
  timeout_reason connection_reason : Reason

abbrev pub credential_words : List String
credential_words =
    "credential" ∷ "permission denied" ∷ "authentication" ∷ "publickey" ∷ "host key verification"
    ∷ "host identification has changed" ∷ "no matching" ∷ []

abbrev pub connection_words : List String
connection_words =
    "connection reset" ∷ "connection closed" ∷ "connection refused" ∷ "connection aborted"
    ∷ "connection failed" ∷ "no route to host" ∷ "network is unreachable" ∷ "broken pipe" ∷ []

abbrev pub timeout_words : List String
timeout_words = "timeout" ∷ "timed out" ∷ []

-- The tests of `retry_reason` on the lowered error text.
unfoldable pub reason_of : List ℕ → Option Reason
reason_of error =
    if any_occurs credential_words error
    then none
    else if not (
        has_prefix (codes "ssh exit 255:") error
        || has_prefix (codes "ssh probe timeout after ") error)
    then none
    else if any_occurs timeout_words error
    then some timeout_reason
    else if any_occurs connection_words error
    then some connection_reason
    else none

-- `payload.get("ok")`, and `payload.get("error")`
unfoldable pub retry_reason : Bool → Option String → Option Reason
unfolding reason_of
retry_reason ok error = if ok then none else reason_of (lower (text_or error))

pub data Cause : Type 0 where
  legacy_unclassified timeout authentication connection probe_failure : Cause

-- The cause in `observation_event_details(error, failures, legacy)`
unfoldable pub event_cause : Option String → Bool → Cause
event_cause error legacy =
    let text = lower (text_or error) in
    if legacy
    then legacy_unclassified
    else if any_occurs timeout_words text
    then timeout
    else if any_occurs ("credential" ∷ "permission denied" ∷ "publickey" ∷ []) text
    then authentication
    else if any_occurs ("connection" ∷ "network" ∷ "route to host" ∷ []) text
    then connection
    else probe_failure
