-- ===== src/Middleware/Enforced.antt =====
-- internal/middleware/cors.go: which origin a response allows.
use mathlib.Core.Path.{subst}
use authgate.Prelude.{
  ◌≡◌, ◌⊎◌, inl, inr, refl, sym, ◌∙◌, Bool, true, false, not, Option, none, some, List, [], ◌∷◌,
  String, str_eq, if◌then◌else◌, Bool-cases,
}
use authgate.Middleware.Header.{
  Header, del, set, add, values_of, values_of-del_self, values_of-del_other, values_of-set_self,
  values_of-set_other, values_of-add_other,
}
use authgate.Middleware.Cors.{
  is_matched, Writer, send, allow_origin, allow_credentials, cors_headers, flush_cors_headers,
  Action, change, write_header, write, flush, act, act_all, preflight, sent_header, serve,
}

-- The two headers that let a page read the response with the user's cookies.
abbrev pub IsEnforced : Bool → String → Header → Type 0
IsEnforced matched origin h =
    (values_of allow_origin h ≡ (if matched then some (origin ∷ []) else none))
    × (values_of allow_credentials h ≡ (if matched then some ("true" ∷ []) else none))

abbrev with_origin : String → Header → Header
with_origin origin h = set "Access-Control-Allow-Headers" ("Content-Type, Authorization" ∷ []) (
    set "Access-Control-Allow-Methods" ("GET, POST, OPTIONS" ∷ [])
      (set allow_origin (origin ∷ []) h))

values_of-with_origin :
    (origin : String) (h : Header)
    → values_of allow_origin (with_origin origin h) ≡ some (origin ∷ [])
values_of-with_origin origin h =
    values_of-set_other allow_origin "Access-Control-Allow-Headers"
      ("Content-Type, Authorization" ∷ [])
      (set "Access-Control-Allow-Methods" ("GET, POST, OPTIONS" ∷ [])
        (set allow_origin (origin ∷ []) h))
      refl
    ∙ values_of-set_other allow_origin "Access-Control-Allow-Methods" ("GET, POST, OPTIONS" ∷ [])
        (set allow_origin (origin ∷ []) h) refl
    ∙ values_of-set_self allow_origin (origin ∷ []) h

abbrev with_credentials : String → Header → Header
with_credentials origin h = set allow_credentials ("true" ∷ []) (with_origin origin h)

with_credentials-IsEnforced :
    (origin : String) (h : Header) → IsEnforced true origin (with_credentials origin h)
with_credentials-IsEnforced origin h = (
  values_of-set_other allow_origin allow_credentials ("true" ∷ []) (with_origin origin h) refl
      ∙ values_of-with_origin origin h,
  values_of-set_self allow_credentials ("true" ∷ []) (with_origin origin h),
)

-- What is enforced stays so when another header is added, set or removed.
add-IsEnforced :
    (origin : String) (h : Header)
    → IsEnforced true origin h
    → IsEnforced true origin (add "Vary" "Origin" h)
add-IsEnforced origin h e = (
  values_of-add_other allow_origin "Vary" "Origin" h refl ∙ e.0,
  values_of-add_other allow_credentials "Vary" "Origin" h refl ∙ e.1,
)

set-IsEnforced :
    (origin : String) (h : Header)
    → IsEnforced true origin h
    → IsEnforced true origin (set "Access-Control-Max-Age" ("86400" ∷ []) h)
set-IsEnforced origin h e = (
  values_of-set_other allow_origin "Access-Control-Max-Age" ("86400" ∷ []) h refl ∙ e.0,
  values_of-set_other allow_credentials "Access-Control-Max-Age" ("86400" ∷ []) h refl ∙ e.1,
)

abbrev without_origin : Header → Header
without_origin h =
    del "Access-Control-Allow-Headers" (del "Access-Control-Allow-Methods" (del allow_origin h))

values_of-without_origin : (h : Header) → values_of allow_origin (without_origin h) ≡ none
values_of-without_origin h =
    values_of-del_other allow_origin "Access-Control-Allow-Headers"
      (del "Access-Control-Allow-Methods" (del allow_origin h)) refl
    ∙ values_of-del_other allow_origin "Access-Control-Allow-Methods" (del allow_origin h) refl
    ∙ values_of-del_self allow_origin h

cors_headers-IsEnforced :
    (matched : Bool) (origin : String) (h : Header)
    → IsEnforced matched origin (cors_headers matched origin h)
unfolding cors_headers
cors_headers-IsEnforced true origin h =
    add-IsEnforced origin (with_credentials origin h) (with_credentials-IsEnforced origin h)
cors_headers-IsEnforced false origin h =
    let cleared = del allow_credentials (without_origin h) in
    (
      values_of-del_other allow_origin "Access-Control-Max-Age" cleared refl
          ∙ values_of-del_other allow_origin allow_credentials (without_origin h) refl
          ∙ values_of-without_origin h,
      values_of-del_other allow_credentials "Access-Control-Max-Age" cleared refl
          ∙ values_of-del_self allow_credentials (without_origin h),
    )

preflight-IsEnforced :
    (matched : Bool) (origin : String) (h : Header)
    → IsEnforced false origin h
    → IsEnforced matched origin (preflight matched origin h)
unfolding preflight
preflight-IsEnforced true origin h clean =
    add-IsEnforced origin (set "Access-Control-Max-Age" ("86400" ∷ []) (with_credentials origin h))
      (set-IsEnforced origin (with_credentials origin h) (with_credentials-IsEnforced origin h))
preflight-IsEnforced false origin h clean = clean

-- Nothing is sent yet, or what is sent is enforced.
Inv : Bool → String → Writer → Type 0
Inv matched origin w =
    ((w.written ≡ false) × (w.sent ≡ none))
    ⊎ ((w.written ≡ true) × ((h : Header) × (w.sent ≡ some h) × IsEnforced matched origin h))

-- Writing through the corsWriter sends an enforced header, or nothing more.
flushed :
    (matched : Bool) (origin : String) (h : Header) (was_sent : Option Header) (was_written : Bool)
    → Inv matched origin (record { header = h; sent = was_sent; written = was_written })
    → Inv matched origin (
        send (
          flush_cors_headers matched origin
            (record { header = h; sent = was_sent; written = was_written })))
unfolding Inv flush_cors_headers
flushed matched origin h none false inv =
    inr (refl, (cors_headers matched origin h, refl, cors_headers-IsEnforced matched origin h))
flushed matched origin h (some x) true inv = inv
flushed matched origin h (some x) false (inl (fresh, none_sent)) = absurd (cc)
flushed matched origin h (some x) false (inr (done, other)) = absurd (cc)
flushed matched origin h none true (inl (fresh, none_sent)) = absurd (cc)
flushed matched origin h none true (inr (done, (x, none_sent, enforced))) = absurd (cc)

-- A write or a flush tests `written` before.
once :
    (matched : Bool) (origin : String) (h : Header) (was_sent : Option Header) (was_written : Bool)
    → (if not was_written
        then flush_cors_headers matched origin
            (record { header = h; sent = was_sent; written = was_written })
        else record { header = h; sent = was_sent; written = was_written })
      ≡ flush_cors_headers matched origin
          (record { header = h; sent = was_sent; written = was_written })
unfolding flush_cors_headers
once matched origin h was_sent true = refl
once matched origin h was_sent false = refl

flushed_once :
    (matched : Bool) (origin : String) (w : Writer)
    → Inv matched origin w
    → Inv matched origin (send (if not w.written then flush_cors_headers matched origin w else w))
flushed_once matched origin w inv =
    subst (λ v. Inv matched origin (send v)) (sym (once matched origin w.header w.sent w.written))
      (flushed matched origin w.header w.sent w.written inv)

act-Inv :
    (matched : Bool) (origin : String) (a : Action) (w : Writer)
    → Inv matched origin w
    → Inv matched origin (act matched origin a w)
unfolding act Inv flush_cors_headers
act-Inv matched origin (change f) w h = h
act-Inv matched origin write_header w h = flushed matched origin w.header w.sent w.written h
act-Inv matched origin write w h = flushed_once matched origin w h
act-Inv matched origin flush w h = flushed_once matched origin w h

act_all-Inv :
    (matched : Bool) (origin : String) (actions : List Action) (w : Writer)
    → Inv matched origin w
    → Inv matched origin (act_all matched origin actions w)
unfolding act_all
act_all-Inv matched origin [] w h = h
act_all-Inv matched origin (a ∷ actions) w h =
    act_all-Inv matched origin actions (act matched origin a w) (act-Inv matched origin a w h)

-- The end of a request: a header that nobody wrote through is enforced before it is sent.
finished :
    (matched : Bool) (origin : String) (h : Header) (was_sent : Option Header) (was_written : Bool)
    → Inv matched origin (record { header = h; sent = was_sent; written = was_written })
    → IsEnforced matched origin (
        sent_header (
          flush_cors_headers matched origin
            (record { header = h; sent = was_sent; written = was_written })))
unfolding Inv flush_cors_headers
finished matched origin h none false inv = cors_headers-IsEnforced matched origin h
finished matched origin h (some x) true (inl (fresh, none_sent)) = absurd (cc)
finished matched origin h (some x) true (inr (done, (y, same, enforced))) =
    let equal : x ≡ y = cc in subst (λ z. IsEnforced matched origin z) (sym equal) enforced
finished matched origin h (some x) false (inl (fresh, none_sent)) = absurd (cc)
finished matched origin h (some x) false (inr (done, other)) = absurd (cc)
finished matched origin h none true (inl (fresh, none_sent)) = absurd (cc)
finished matched origin h none true (inr (done, (x, none_sent, enforced))) = absurd (cc)

finished_writer :
    (matched : Bool) (origin : String) (w : Writer)
    → Inv matched origin w
    → IsEnforced matched origin
        (sent_header (if not w.written then flush_cors_headers matched origin w else w))
finished_writer matched origin w inv =
    subst (λ v. IsEnforced matched origin (sent_header v))
      (sym (once matched origin w.header w.sent w.written))
      (finished matched origin w.header w.sent w.written inv)

untouched-Inv :
    (matched : Bool) (origin : String) (h : Header)
    → Inv matched origin (record { header = h; sent = none; written = false })
unfolding Inv
untouched-Inv matched origin h = inl (refl, refl)

-- Over headers that name no origin, the response to any request carries an allowed origin with
-- credentials exactly when the request's origin is one of the nonempty allowed ones, and then that origin,
-- whatever the inner handler does to the headers before and after it writes.
pub serve-IsEnforced :
    (allowed_origins : List String) (method origin : String) (h : Header) (actions : List Action)
    → IsEnforced false origin h
    → IsEnforced
        (is_matched allowed_origins origin)
        origin
        (serve allowed_origins method origin h actions)
unfolding serve
serve-IsEnforced allowed_origins method origin h actions clean =
    elim (Bool-cases (str_eq method "OPTIONS")) [
      | inl options ↦
          rw options (preflight-IsEnforced (is_matched allowed_origins origin) origin h clean)
      | inr other ↦ rw other (
          finished_writer (is_matched allowed_origins origin) origin
            (act_all (is_matched allowed_origins origin) origin actions
              (record { header = h; sent = none; written = false }))
            (act_all-Inv (is_matched allowed_origins origin) origin actions
              (record { header = h; sent = none; written = false })
              (untouched-Inv (is_matched allowed_origins origin) origin h)))
    ]
