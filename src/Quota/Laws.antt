-- ===== src/Quota/Laws.antt =====
-- A quota is never overdrawn, and lasts until its window ends.
use native.Mathlib.Nat.{div-add-mod, mod-lt, mul_comm, mul_assoc, mul-le-mul_left}
use gpu_watch.Prelude.{
  ℕ, zero, suc, ◌+◌, ◌-◌, ◌*◌, ◌/◌, ◌≤◌, ◌<◌, ◌≡◌, refl, Bool, true, false, Option, none, some, ltb,
  leb, arith, Bool-cases, inl, inr, max, ap, sym, Option-cases, ◌∙◌,
}
use gpu_watch.Quota.{
  Window, ApiQuota, accept, is_acceptable, rolled, roll_window, reserved, margin_of, wait_in,
  required_wait, reserve_request, batches_of, ceil_part, delay_in, next_delay,
}

-- `requests` calls of reserve_request, all at one time.
unfoldable pub reserve_requests : ℕ → ℕ → ApiQuota → ApiQuota
reserve_requests zero clock quota = quota
reserve_requests (suc n) clock quota = reserve_requests n clock (reserve_request clock quota)

-- A request in an open window takes one from what remains.
reserve_request-window :
    (clock : ℕ) (quota : ApiQuota) (w : Window)
    → quota.window ≡ some w
    → clock < w.reset
    → (reserve_request clock quota).window ≡ some (record w { remaining = w.remaining - 1 })
unfolding reserve_request roll_window
reserve_request-window clock quota w e h =
    let open_still : leb w.reset clock ≡ false = ground arith in rw (e, open_still) refl

reserve_requests-window :
    (requests clock : ℕ) (quota : ApiQuota) (w : Window)
    → quota.window ≡ some w
    → clock < w.reset
    → (reserve_requests requests clock quota).window
      ≡ some (record w { remaining = w.remaining - requests })
unfolding reserve_requests
reserve_requests-window zero clock quota w e h =
    let same : w.remaining ≡ w.remaining - 0 = omega arith in
    e ∙ ap (λ left. some (record w { remaining = left })) same
reserve_requests-window (suc n) clock quota w e h =
    reserve_requests-window n clock (reserve_request clock quota)
      (record w { remaining = w.remaining - 1 }) (reserve_request-window clock quota w e h) h
    ∙ ap (λ left. some (record w { remaining = left })) (omega arith)

margin_of-rolled :
    (reserve : Bool) (clock : ℕ) (w : Window)
    → margin_of reserve (rolled clock w) ≡ margin_of reserve w
margin_of-rolled reserve clock w = elim (Bool-cases (leb w.reset clock)) [
  | inl e ↦ rw e refl
  | inr e ↦ rw e refl
]

rolled-open : (clock : ℕ) (w : Window) → clock < (rolled clock w).reset
rolled-open clock w = elim (Bool-cases (leb w.reset clock)) [
  | inl e ↦ rw e (omega arith)
  | inr e ↦ rw e (ground arith)
]

no_wait_enough :
    (requests : ℕ) (reserve : Bool) (clock : ℕ) (w : Window)
    → wait_in requests reserve clock w ≡ 0
    → requests + margin_of reserve w ≤ w.remaining
unfolding wait_in
no_wait_enough requests reserve clock w h =
    elim (Bool-cases (ltb w.remaining (requests + margin_of reserve w))) [
      | inl e ↦
          absurd (let wait : max 1000 ((w.reset + 1000) - clock) ≡ 0 = rw e at h in omega arith)
      | inr e ↦ ground arith
    ]

-- If there is no wait for some requests, with or without the reserve, then making them leaves the
-- reserve, and the remaining number is exactly that many lower.
pub required_wait-reserve_requests :
    (requests : ℕ) (reserve : Bool) (clock : ℕ) (quota : ApiQuota) (w : Window)
    → quota.window ≡ some w
    → (required_wait requests reserve clock quota).1 ≡ 0
    → (after : Window) × ((reserve_requests requests clock
          (required_wait requests reserve clock quota).0).window
        ≡ some after)
      × (after.remaining + requests ≡ (rolled clock w).remaining)
      × (margin_of reserve w ≤ after.remaining)
unfolding required_wait roll_window wait_in
required_wait-reserve_requests requests reserve clock quota w e none_needed =
    let enough : requests + margin_of reserve (rolled clock w) ≤ (rolled clock w).remaining =
      no_wait_enough requests reserve clock (rolled clock w) (rw e at none_needed) in
    (
      record (rolled clock w) { remaining = (rolled clock w).remaining - requests },
      reserve_requests-window requests clock (roll_window clock quota) (rolled clock w) (rw e refl)
          (rolled-open clock w),
      omega arith,
      omega (arith, margin_of-rolled reserve clock w),
    )

times_thousand : (a q : ℕ) → a * (q * 1000) ≡ a * 1000 * q
times_thousand a q = ap (λ x. a * x) (mul_comm q 1000) ∙ sym (mul_assoc a 1000 q)

ceil_part-covers : (time n : ℕ) → time ≤ (n + 1) * ceil_part time (n + 1)
ceil_part-covers time n =
    let split = div-add-mod (time + ((n + 1) * 1000 - 1)) ((n + 1) * 1000) in
    let small = mod-lt (time + ((n + 1) * 1000 - 1)) {m = (n + 1) * 1000} (omega arith) in
    omega (
      arith,
      split,
      small,
      times_thousand (n + 1) ((time + ((n + 1) * 1000 - 1)) / ((n + 1) * 1000)),
    )

delay_in-covers :
    (minimum pages clock : ℕ) (w : Window)
    → wait_in pages true clock w ≡ 0
    → (batches_of w pages * pages + reserved w ≤ w.remaining)
      × (w.reset ≤ clock + (batches_of w pages + 1) * delay_in minimum pages clock w)
unfolding delay_in wait_in
delay_in-covers minimum pages clock w none_needed =
    let enough = no_wait_enough pages true clock w none_needed in
    let spare = div-add-mod (w.remaining - reserved w) pages in
    let reached = ceil_part-covers (w.reset - clock) (batches_of w pages) in
    (
      omega arith,
      rw none_needed (
          omega (
            arith,
            reached,
            mul-le-mul_left {m = ceil_part (w.reset - clock) (batches_of w pages + 1)}
                {n = max minimum (ceil_part (w.reset - clock) (batches_of w pages + 1))}
                (batches_of w pages + 1) (omega arith),
          )),
    )

-- If a refresh of all pages need not wait, the refreshes that are counted fit into what remains over
-- the reserve, and that many delays and one more reach the end of the window.
pub next_delay-covers :
    (minimum fallback clock : ℕ) (quota : ApiQuota) (w : Window)
    → quota.window ≡ some w
    → (required_wait quota.pages true clock quota).1 ≡ 0
    → let batches = batches_of (rolled clock w) quota.pages in
      (batches * quota.pages + reserved (rolled clock w) ≤ (rolled clock w).remaining)
      × ((rolled clock w).reset
          ≤ clock + (batches + 1) * (next_delay minimum fallback clock quota).1)
unfolding next_delay required_wait roll_window
next_delay-covers minimum fallback clock quota w e none_needed =
    let (fits, lasts) =
      delay_in-covers minimum quota.pages clock (rolled clock w) (rw e at none_needed) in
    (fits, rw e lasts)

-- The limit is between one and a million, and no more than the limit remains.
abbrev pub IsWithin : Option Window → Type 0
IsWithin none = Unit
IsWithin (some w) = (1 ≤ w.limit) × (w.limit ≤ 1000000) × (w.remaining ≤ w.limit)

accept-IsWithin :
    (limit remaining reset : Option ℕ) (clock : ℕ) (quota : ApiQuota)
    → IsWithin quota.window
    → IsWithin (accept limit remaining reset clock quota).window
unfolding accept
accept-IsWithin (some limit) (some remaining) (some reset) clock quota h =
    let w : Window = record { limit = limit; remaining = remaining; reset = reset } in
    elim (Bool-cases (is_acceptable w clock)) [
      | inl e ↦ rw e (ground arith, ground arith, ground arith)
      | inr e ↦ rw e h
    ]
accept-IsWithin none remaining reset clock quota h = h
accept-IsWithin (some limit) none reset clock quota h = h
accept-IsWithin (some limit) (some remaining) none clock quota h = h

reserve_request-IsWithin :
    (clock : ℕ) (quota : ApiQuota)
    → IsWithin quota.window
    → IsWithin (reserve_request clock quota).window
unfolding reserve_request roll_window
reserve_request-IsWithin clock quota h = elim (Option-cases quota.window) [
  | inl e ↦ rw e tt
  | inr (w, e) ↦
      let known : IsWithin (some w) = rw e at h in
      rw e (elim (Bool-cases (leb w.reset clock)) [
        | inl late ↦ rw late (known.0, known.1, omega arith)
        | inr early ↦ rw early (known.0, known.1, omega (arith, known.2))
      ])
]

-- Whatever an answer's headers say and whenever requests are made, the known limit stays between one
-- and a million and no more than it remains.
pub quota_steps-IsWithin :
    (limit remaining reset : Option ℕ) (clock : ℕ) (quota : ApiQuota)
    → IsWithin quota.window
    → IsWithin (accept limit remaining reset clock quota).window
      × IsWithin (reserve_request clock quota).window
quota_steps-IsWithin limit remaining reset clock quota h =
    (accept-IsWithin limit remaining reset clock quota h, reserve_request-IsWithin clock quota h)
