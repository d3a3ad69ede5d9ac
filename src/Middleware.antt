-- ===== src/Middleware.antt =====
-- pkg/middleware/middleware.go, and the order in which cmd/management-service/app.go puts its functions
-- around a handler. `c.Next()` is a call of the next function, and `gin.CustomRecovery` a parameter.
use yeti.Base.{
  ℕ, String, ◌<>◌, ◌≡◌, refl, Bool, true, not, some, List, [], ◌∷◌, ◌++◌, arith, ◌==◌,
  if◌then◌else◌, leb, value_or,
}
use yeti.Base.Dict.{Dict, lookup, insert}

pub record Request : Type 0 where
  pub path : String
  pub raw_query : String
  pub method : String
  pub headers : Dict String

-- What of `gin.Context` the functions write: the headers, the status and the body of the answer, and
-- the values that are set; and the entries of the log behind it.
pub data LogEntry : Type 0 where
  error_entry : String → Dict String → LogEntry
  info_entry : String → Dict String → LogEntry

pub record Gin : Type 0 where
  pub status : ℕ
  pub headers : Dict String
  pub body : Dict String
  pub keys : Dict String
  pub aborted : Bool
  pub log : List LogEntry

-- A function of the chain returns, or panics with the text of a value before the answer is written.
pub data Ran : Type 0 where
  returned : Gin → Ran
  panicked : String → Gin → Ran

abbrev pub Handler : Type 0
Handler = Request → Gin → Ran

abbrev pub answer : ℕ → Dict String → Gin → Gin
answer status body c = record c { status = status; body = body }

abbrev pub add_log : LogEntry → Gin → Gin
add_log e c = record c { log = c.log ++ (e ∷ []) }

-- The function that `gin.CustomRecovery` is given.
unfoldable pub recovered : Request → String → Gin → Gin
recovered r what c =
    let logged =
      add_log
        (error_entry "Panic recovered"
          (("error", what) ∷ ("path", r.path) ∷ ("method", r.method) ∷ []))
        c in
    record logged {
      status = 500;
      body = ("error", "internal server error") ∷ ("error_code", "INTERNAL_ERROR") ∷ [];
      aborted = true;
    }

-- `gin.CustomRecovery`, behind `c.Next()`, and what its documentation says: it recovers from a panic, and
-- calls the function that it is given to handle it.
abbrev pub CustomRecovery : Type 0
CustomRecovery = (String → Gin → Gin) → Ran → Ran

pub record Recovers (custom_recovery : CustomRecovery) : Type 0 where
  pub passes :
      (handle : String → Gin → Gin) (c : Gin) → custom_recovery handle (returned c) ≡ returned c
  pub catches :
      (handle : String → Gin → Gin) (what : String) (c : Gin)
      → custom_recovery handle (panicked what c) ≡ returned (handle what c)

unfoldable pub recovery_middleware : CustomRecovery → Handler → Handler
recovery_middleware custom_recovery next r c = custom_recovery (recovered r) (next r c)

-- `show` is the text of a number. The latency, the client and the private errors are left out.
module _ (show : ℕ → String) where
  abbrev pub full_path : Request → String
  full_path r = if not (r.raw_query == "") then r.path <> "?" <> r.raw_query else r.path

  abbrev pub log_fields : Request → Gin → Dict String
  log_fields r c = ("status", show c.status) ∷ ("method", r.method) ∷ ("path", full_path r) ∷ []

  abbrev pub request_entry : Request → Gin → LogEntry
  request_entry r c =
      if leb 500 c.status
      then error_entry "HTTP Request" (log_fields r c)
      else info_entry "HTTP Request" (log_fields r c)

  unfoldable pub logged : Request → Ran → Ran
  logged r (returned c) = returned (add_log (request_entry r c) c)
  logged r (panicked what c) = panicked what c

  unfoldable pub logger_middleware : Handler → Handler
  logger_middleware next r c = logged r (next r c)

-- `generateRequestID` for the two times, of which the second is in seconds.
unfoldable pub generate_request_id : (ℕ → String) → ℕ → ℕ → String
generate_request_id show nanoseconds seconds = show nanoseconds <> "-" <> show seconds

unfoldable pub request_id : String → Request → String
request_id generated r =
    let given = value_or (lookup "X-Request-ID" r.headers) "" in
    if given == "" then generated else given

unfoldable pub request_id_middleware : String → Handler → Handler
request_id_middleware generated next r c =
    let id = request_id generated r in
    next r (record c {
      keys = insert "request_id" id c.keys;
      headers = insert "X-Request-ID" id c.headers;
    })

-- The functions around a handler: the recovery is outside, the ID inside.
unfoldable pub chain : CustomRecovery → (ℕ → String) → String → Handler → Handler
chain custom_recovery show generated handler =
    recovery_middleware custom_recovery
      (logger_middleware show (request_id_middleware generated handler))

-- The context that the handler is given.
abbrev pub identified : String → Request → Gin → Gin
identified generated r c =
    let id = request_id generated r in
    record c { keys = insert "request_id" id c.keys; headers = insert "X-Request-ID" id c.headers }

-- Where Gin recovers as it documents, a request whose handler panics before it has written an
-- answer is answered by 500 with the code INTERNAL_ERROR and the headers that were set before the
-- panic. The panic is logged with its value, the path and the method, and is the only new entry:
-- the request itself is not logged.
pub chain_panicked :
    (custom_recovery : CustomRecovery) (show : ℕ → String) (generated : String) (handler : Handler)
    (r : Request) (c c' : Gin) (what : String)
    → Recovers custom_recovery
    → handler r (identified generated r c) ≡ panicked what c'
    → (g : Gin) × (chain custom_recovery show generated handler r c ≡ returned g)
      × (g.status ≡ 500)
      × (lookup "error_code" g.body ≡ some "INTERNAL_ERROR")
      × (g.headers ≡ c'.headers)
      × (g.log
          ≡ c'.log
            ++ (error_entry "Panic recovered"
                  (("error", what) ∷ ("path", r.path) ∷ ("method", r.method) ∷ [])
                ∷ []))
unfolding chain recovery_middleware recovered logger_middleware logged request_id_middleware lookup
chain_panicked custom_recovery show generated handler r c c' what recovers h = (
  record c' {
    status = 500;
    body = ("error", "internal server error") ∷ ("error_code", "INTERNAL_ERROR") ∷ [];
    aborted = true;
    log =
        c'.log
        ++ (error_entry "Panic recovered"
              (("error", what) ∷ ("path", r.path) ∷ ("method", r.method) ∷ [])
            ∷ []);
  },
  ground (arith, recovers.catches (recovered r) what c'),
  refl,
  refl,
  refl,
  refl,
)

-- There, a request whose handler returns is answered as the handler left it, and is logged once, as an error
-- exactly from the status 500 on.
pub chain_returned :
    (custom_recovery : CustomRecovery) (show : ℕ → String) (generated : String) (handler : Handler)
    (r : Request) (c c' : Gin)
    → Recovers custom_recovery
    → handler r (identified generated r c) ≡ returned c'
    → chain custom_recovery show generated handler r c
      ≡ returned (add_log (request_entry show r c') c')
unfolding chain recovery_middleware recovered logger_middleware logged request_id_middleware
chain_returned custom_recovery show generated handler r c c' recovers h =
    ground (arith, recovers.passes (recovered r) (add_log (request_entry show r c') c'))
