-- ===== src/Quota.antt =====
-- gpu_watch/api_quota.py, class ApiQuota: the quota of an API with a fixed window.
--
-- Times are whole milliseconds, and a call reads the clock once. A header or a stored value that is
-- not a number, or is negative, is `none`. What save() writes to the file is left out.
pub mod Laws
use gpu_watch.Prelude.{
  ℕ, ◌+◌, ◌-◌, ◌*◌, ◌/◌, Bool, true, ◌&&◌, Option, none, some, leb, ltb, ◌==◌, if◌then◌else◌, min,
  max,
}

-- `limit`, `remaining` and `reset`, which are set together.
pub record Window : Type 0 where
  pub limit : ℕ
  pub remaining : ℕ
  pub reset : ℕ

pub record ApiQuota : Type 0 where
  pub window : Option Window
  pub pages : ℕ
  pub not_before : ℕ

abbrev pub day : ℕ
day = 86400000

abbrev pub is_acceptable : Window → ℕ → Bool
is_acceptable w clock =
    (leb 1 w.limit && leb w.limit 1000000)
    && (leb w.remaining w.limit && (leb clock (w.reset + day) && leb w.reset (clock + 86460000)))

-- `_accept`
unfoldable pub accept : Option ℕ → Option ℕ → Option ℕ → ℕ → ApiQuota → ApiQuota
accept (some limit) (some remaining) (some reset) clock quota =
    let w : Window = record { limit = limit; remaining = remaining; reset = reset } in
    if is_acceptable w clock then record quota { window = some w } else quota
accept _ _ _ clock quota = quota

-- `_roll_window`
abbrev pub rolled : ℕ → Window → Window
rolled clock w =
    if leb w.reset clock then record w { remaining = w.limit; reset = clock + day } else w

unfoldable pub roll_window : ℕ → ApiQuota → ApiQuota
roll_window clock quota = elim quota.window [
  | none ↦ quota
  | some w ↦ record quota { window = some (rolled clock w) }
]

-- `min(8, max(1, self.limit // 10))`
abbrev pub reserved : Window → ℕ
reserved w = min 8 (max 1 (w.limit / 10))

abbrev pub margin_of : Bool → Window → ℕ
margin_of reserve w = if reserve then reserved w else 0

-- The wait that a known window asks for.
unfoldable pub wait_in : ℕ → Bool → ℕ → Window → ℕ
wait_in requests reserve clock w =
    if ltb w.remaining (requests + margin_of reserve w)
    then max 1000 ((w.reset + 1000) - clock)
    else 0

-- The wait, and the quota after the window has been rolled.
unfoldable pub required_wait : ℕ → Bool → ℕ → ApiQuota → ApiQuota × ℕ
unfolding wait_in
required_wait requests reserve clock quota =
    let after = roll_window clock quota in
    (after, elim after.window [ none ↦ 0 | some w ↦ wait_in requests reserve clock w ])

unfoldable pub reserve_request : ℕ → ApiQuota → ApiQuota
reserve_request clock quota =
    let after = roll_window clock quota in
    elim after.window [
      | none ↦ after
      | some w ↦ record after { window = some (record w { remaining = w.remaining - 1 }) }
    ]

-- `(remaining - reserve) // pages`, at least 0
abbrev pub batches_of : Window → ℕ → ℕ
batches_of w pages = (w.remaining - reserved w) / pages

-- `math.ceil` of a time to whole seconds, of its part in `parts` equal ones
abbrev pub ceil_part : ℕ → ℕ → ℕ
ceil_part time parts = ((time + (parts * 1000 - 1)) / (parts * 1000)) * 1000

unfoldable pub delay_in : ℕ → ℕ → ℕ → Window → ℕ
unfolding wait_in
delay_in minimum pages clock w =
    let wait = wait_in pages true clock w in
    if wait == 0
    then max minimum (ceil_part (w.reset - clock) (batches_of w pages + 1))
    else max minimum wait

unfoldable pub next_delay : ℕ → ℕ → ℕ → ApiQuota → ApiQuota × ℕ
unfolding delay_in
next_delay minimum fallback clock quota =
    let after = roll_window clock quota in
    (
      after,
      elim after.window [
        | none ↦ max minimum fallback
        | some w ↦ delay_in minimum after.pages clock w
      ],
    )
