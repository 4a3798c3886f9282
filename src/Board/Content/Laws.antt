-- ===== src/Board/Content/Laws.antt =====
-- What the checks of an announcement guarantee.
use gpu_watch.Prelude.{
  ℕ, ◌≤◌, ◌<◌, ◌≡◌, ◌≢◌, ◌⊎◌, refl, Bool, true, false, ◌&&◌, Option, none, some, String, str_eq,
  arith, Bool-cases, inl, inr, ne_of_str_eq, sym, ap, subst, ◌∙◌,
}
use gpu_watch.Text.{size, clean_text}
use gpu_watch.Text.Clean.{size-take_text}
use gpu_watch.Text.Lines.{clean_multiline_text}
use gpu_watch.Board.Content.{
  Python, Result, err, ok, Content, last_time, check_expiry, limited, timed_expiry, after_seconds,
  parse_local_datetime, expiry_of, validated_content,
}
use gpu_watch.Prelude.Signed.{ℤ, pos, negsuc}

check_expiry_lem :
    (t : ℤ) (ts expires : ℕ)
    → check_expiry t ts ≡ ok expires
    → (ts < expires) × (expires ≤ last_time)
unfolding check_expiry
check_expiry_lem (pos t) ts expires h = ground arith
check_expiry_lem (negsuc n) ts expires h = ground arith

timed_expiry_lem :
    (read : Option ℤ) (ts expires : ℕ) (permanent : Bool)
    → timed_expiry read ts ≡ ok (expires, permanent)
    → (permanent ≡ false) × (ts < expires) × (expires ≤ last_time)
unfolding timed_expiry
timed_expiry_lem none ts expires permanent h = cc h
timed_expiry_lem (some t) ts expires permanent h = go (check_expiry t ts) refl
  where
    go :
        (checked : Result ℕ)
        → check_expiry t ts ≡ checked
        → (permanent ≡ false) × (ts < expires) × (expires ≤ last_time)
    go (err error) e = cc (rw e at h)
    go (ok found) e =
        let pair : limited (ok found) ≡ ok (expires, permanent) = rw e at h in
        let same : found ≡ expires = cc pair in
        let timed : false ≡ permanent = cc pair in
        let (later, known) = check_expiry_lem t ts expires (e ∙ ap (λ n. ok n) same) in
        (sym timed, later, known)

expiry_of_lem :
    (python : Python) (expires_text duration_text : String) (ts expires : ℕ) (permanent : Bool)
    → expiry_of python expires_text duration_text ts ≡ ok (expires, permanent)
    → (permanent ≡ (str_eq expires_text "" && str_eq duration_text ""))
      × ((permanent ≡ true) ⊎ ((ts < expires) × (expires ≤ last_time)))
unfolding expiry_of
expiry_of_lem python expires_text duration_text ts expires permanent h =
    elim (Bool-cases (str_eq expires_text "")) [
      | inr timed ↦
          let (lasts, later, known) =
            timed_expiry_lem (parse_local_datetime python expires_text) ts expires permanent
              (rw timed at h) in
          rw timed (lasts, inr (later, known))
      | inl empty ↦ elim (Bool-cases (str_eq duration_text "")) [
        | inl neither ↦
            let pair : ok (ts, true) ≡ ok (expires, permanent) = rw (empty, neither) at h in
            let yes_ : true ≡ permanent = cc pair in rw (empty, neither) (sym yes_, inl (sym yes_))
        | inr lasting ↦
            let (lasts, later, known) =
              timed_expiry_lem (after_seconds ts (python.read_int duration_text)) ts expires
                permanent (rw (empty, lasting) at h) in
            rw (empty, lasting) (lasts, inr (later, known))
      ]
    ]

-- A content that is accepted has a clean author of at most 32 characters and a message of at most 240,
-- neither of them empty; it is permanent exactly if neither an expiry nor a duration is given, and if
-- not it expires ahead, in the range of times that can be written.
pub validated_content_lem :
    (python : Python) (author message duration_seconds expires_at : Option String) (ts : ℕ)
    (content : Content)
    → validated_content python author message duration_seconds expires_at ts ≡ ok content
    → (content.author ≡ clean_text author 32)
      × (content.author ≢ "")
      × (size content.message ≤ 240)
      × (content.message ≢ "")
      × (content.permanent
          ≡ (str_eq (clean_text expires_at 64) "" && str_eq (clean_text duration_seconds 32) ""))
      × ((content.permanent ≡ true)
          ⊎ ((ts < content.expires_ts) × (content.expires_ts ≤ last_time)))
unfolding validated_content
validated_content_lem python author message duration_seconds expires_at ts content h =
    go (expiry_of python (clean_text expires_at 64) (clean_text duration_seconds 32) ts) refl
  where
    made_content : ℕ → Bool → Content
    made_content expires permanent = record {
      author = clean_text author 32;
      message = clean_multiline_text message 240;
      expires_ts = expires;
      permanent = permanent;
    }

    go :
        (expiry : Result (ℕ × Bool))
        → expiry_of python (clean_text expires_at 64) (clean_text duration_seconds 32) ts ≡ expiry
        → (content.author ≡ clean_text author 32)
          × (content.author ≢ "")
          × (size content.message ≤ 240)
          × (content.message ≢ "")
          × (content.permanent ≡ (
              str_eq (clean_text expires_at 64) "" && str_eq (clean_text duration_seconds 32) ""))
          × ((content.permanent ≡ true)
              ⊎ ((ts < content.expires_ts) × (content.expires_ts ≤ last_time)))
    go (err error) e = cc (rw e at h)
    go (ok (expires, permanent)) e = elim (Bool-cases (str_eq (clean_text author 32) "")) [
      | inl no_author ↦ cc (rw (e, no_author) at h)
      | inr named ↦ elim (Bool-cases (str_eq (clean_multiline_text message 240) "")) [
        | inl empty ↦ cc (rw (e, named, empty) at h)
        | inr written ↦
            let made : ok (made_content expires permanent) ≡ ok content =
              rw (e, named, written) at h in
            let same : made_content expires permanent ≡ content = cc made in
            let (kind, range) =
              expiry_of_lem python (clean_text expires_at 64) (clean_text duration_seconds 32) ts
                expires permanent e in
            subst
              (λ (c : Content).
                (c.author ≡ clean_text author 32)
                × (c.author ≢ "")
                × (size c.message ≤ 240)
                × (c.message ≢ "")
                × (c.permanent ≡ (
                    str_eq (clean_text expires_at 64) ""
                    && str_eq (clean_text duration_seconds 32) ""))
                × ((c.permanent ≡ true) ⊎ ((ts < c.expires_ts) × (c.expires_ts ≤ last_time))))
              same
              (
                refl,
                ne_of_str_eq (clean_text author 32) "" named,
                unfold clean_multiline_text in size-take_text 240 _,
                ne_of_str_eq (clean_multiline_text message 240) "" written,
                kind,
                range,
              )
      ]
    ]
