-- ===== src/Middleware/Cors.antt =====
-- internal/middleware/cors.go: the CORS headers, enforced when the inner handler's response is committed.
use authgate.Prelude.{
  Bool, true, false, not, ◌&&◌, Option, none, some, List, [], ◌∷◌, String, str_eq, any,
  if◌then◌else◌,
}
use authgate.Middleware.Header.{Header, del, set, add}

-- The test of the map of allowed origins, which has no empty one.
unfoldable pub is_matched : List String → String → Bool
is_matched allowed_origins origin = any (λ o. not (str_eq o "") && str_eq o origin) allowed_origins

-- The server's writer: the header map, and the header that has been sent.
pub record Writer : Type 0 where
  pub header : Header
  pub sent : Option Header
  -- `written` of the corsWriter around it.
  pub written : Bool

-- The first write sends the header.
abbrev pub send : Writer → Writer
send w = elim w.sent [ none ↦ record w { sent = some w.header } | some h ↦ w ]

abbrev pub allow_origin : String
allow_origin = "Access-Control-Allow-Origin"

abbrev pub allow_credentials : String
allow_credentials = "Access-Control-Allow-Credentials"

unfoldable pub cors_headers : Bool → String → Header → Header
unfolding set add del
cors_headers matched origin h =
    if matched
    then add "Vary" "Origin" (
        set allow_credentials ("true" ∷ []) (
          set "Access-Control-Allow-Headers" ("Content-Type, Authorization" ∷ []) (
            set "Access-Control-Allow-Methods" ("GET, POST, OPTIONS" ∷ [])
              (set allow_origin (origin ∷ []) h))))
    else del "Access-Control-Max-Age" (
        del allow_credentials (
          del "Access-Control-Allow-Headers"
            (del "Access-Control-Allow-Methods" (del allow_origin h))))

-- `flushCORSHeaders`.
unfoldable pub flush_cors_headers : Bool → String → Writer → Writer
unfolding cors_headers
flush_cors_headers matched origin w =
    if w.written
    then w
    else record w { header = cors_headers matched origin w.header; written = true }

-- What an inner handler does with the writer: it changes the header map in any way, or it writes a
-- final status or a part of the body, or it flushes, over a server's writer that is an http.Flusher.
-- Informational statuses and Hijack are not modelled.
pub data Action : Type 0 where
  change : (Header → Header) → Action
  write_header : Action
  write : Action
  flush : Action

-- `WriteHeader`, `Write` and `Flush` of the corsWriter.
unfoldable pub act : Bool → String → Action → Writer → Writer
unfolding flush_cors_headers
act matched origin (change f) w = record w { header = f w.header }
act matched origin write_header w = send (flush_cors_headers matched origin w)
act matched origin write w = send (if not w.written then flush_cors_headers matched origin w else w)
act matched origin flush w = send (if not w.written then flush_cors_headers matched origin w else w)

unfoldable pub act_all : Bool → String → List Action → Writer → Writer
act_all matched origin [] w = w
act_all matched origin (a ∷ actions) w = act_all matched origin actions (act matched origin a w)

-- The answer to a preflight request.
unfoldable pub preflight : Bool → String → Header → Header
unfolding set add
preflight matched origin h =
    if matched
    then add "Vary" "Origin" (
        set "Access-Control-Max-Age" ("86400" ∷ []) (
          set allow_credentials ("true" ∷ []) (
            set "Access-Control-Allow-Headers" ("Content-Type, Authorization" ∷ []) (
              set "Access-Control-Allow-Methods" ("GET, POST, OPTIONS" ∷ [])
                (set allow_origin (origin ∷ []) h)))))
    else h

-- What the server sends once the handler has returned.
abbrev pub sent_header : Writer → Header
sent_header w = elim w.sent [ none ↦ w.header | some h ↦ h ]

-- `NewCORSMiddleware`: the header that is sent for a request, around a handler that does these actions.
unfoldable pub serve : List String → String → String → Header → List Action → Header
unfolding is_matched preflight act_all flush_cors_headers
serve allowed_origins method origin h actions =
    let matched = is_matched allowed_origins origin in
    if str_eq method "OPTIONS"
    then preflight matched origin h
    else (let w =
          act_all matched origin actions (record { header = h; sent = none; written = false }) in
        sent_header (if not w.written then flush_cors_headers matched origin w else w))
