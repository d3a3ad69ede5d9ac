-- ===== src/Providers/Sources.antt =====
-- internal/enrichment/provider/api_provider.go and cache_provider.go.
use yeti.Base.{
  ℕ, String, ◌<>◌, ◌≡◌, ◌||◌, ◌≤◌, ◌<◌, Option, none, some, arith, ◌==◌, ltb, leb, if◌then◌else◌,
  inl, inr, Option-cases,
}
use yeti.Base.Dict.{Dict}
use yeti.Model.Value.{Value, text, Fields, no_fields, insert}
use yeti.Errors.Chain.{Err, plain}
use yeti.Errors.Result.{Result, ok, err, wrap_err, Result-cases}
use yeti.Providers.Query.{SourceConfig}

-- `replace_all s old new` is `strings.ReplaceAll`, `show` is `%v` and `show_nat` is `%d`.
pub record Texts : Type 0 where
  pub replace_all : String → String → String → String
  pub show : Value → String
  pub show_nat : ℕ → String

pub record Response : Type 0 where
  pub status_code : ℕ
  pub body : Result Fields

-- `http.NewRequestWithContext` and `client.Do` on a method, a URL and headers; the body of a response
-- is what JSON decodes of it. A nil map is read as an empty one.
pub record Http : Type 1 where
  pub State : Type 0
  pub bad_request : String → String → Option Err
  pub send : String → String → Dict String → State → Result Response × State

-- `client.Get(key).Result()`, with `none` for `redis.Nil`, and `json.Unmarshal`.
pub record Cache : Type 1 where
  pub State : Type 0
  pub get : String → State → Result (Option String) × State
  pub unmarshal : String → Result Fields

-- Both placeholders, one after the other.
abbrev pub filled : Texts → Value → String → String
filled texts field_value pattern =
    let s = texts.show field_value in
    texts.replace_all (texts.replace_all pattern "{field_value}" s) "{value}" s

module _ (texts : Texts) (http : Http) where
  abbrev pub received : Result Response → Result Fields
  received (err e) = wrap_err "api request failed" (err e)
  received (ok resp) =
      if ltb resp.status_code 200 || leb 300 resp.status_code
      then err (plain ("api returned status: " <> texts.show_nat resp.status_code))
      else wrap_err "failed to decode response" resp.body

  unfoldable pub api_fetch : SourceConfig → Value → http.State → Result Fields × http.State
  api_fetch config field_value st =
      let url = filled texts field_value config.url in
      elim (http.bad_request config.method url) [
        | some e ↦ (wrap_err "failed to create request" (err e), st)
        | none ↦
            let (answer, st') = http.send config.method url config.headers st in
            (received answer, st')
      ]

  -- Data from an API come from an answer to the request for the rule's URL, with both placeholders
  -- filled: its status is from 200 to 299, and the data are what JSON decodes from its body.
  pub api_fetch_ok :
      (config : SourceConfig) (v : Value) (st st' : http.State) (d : Fields)
      → api_fetch config v st ≡ (ok d, st')
      → (http.bad_request config.method (filled texts v config.url) ≡ none)
        × ((resp : Response) × (http.send config.method
                (filled texts v config.url)
                config.headers
                st
              ≡ (ok resp, st'))
            × (200 ≤ resp.status_code)
            × (resp.status_code < 300)
            × (resp.body ≡ ok d))
  unfolding api_fetch
  api_fetch_ok config v st st' d h =
      let url = filled texts v config.url in
      let (answer, st₁) = http.send config.method url config.headers st in
      elim (Option-cases (http.bad_request config.method url)) [
        | inr (e, bad) ↦ absurd (ground arith)
        | inl good ↦ elim (Result-cases answer) [
          | inr (e, failed) ↦ absurd (ground arith)
          | inl (resp, sent) ↦ elim (Result-cases resp.body) [
            | inr (e, broken) ↦ absurd (ground arith)
            | inl (found, decoded) ↦
                (good, (resp, ground arith, ground arith, ground arith, ground arith))
          ]
        ]
      ]

module _ (texts : Texts) (cache : Cache) where
  -- A text that is no JSON object is the value itself.
  abbrev pub decoded : String → Result Fields → Fields
  decoded val (ok result) = result
  decoded val (err e) = insert "value" (text val) no_fields

  abbrev pub cached : String → Result (Option String) → Result Fields
  cached key (err e) = wrap_err "redis get failed" (err e)
  cached key (ok none) = err (plain ("cache key not found: " <> key))
  cached key (ok (some val)) = ok (decoded val (cache.unmarshal val))

  unfoldable pub cache_fetch : SourceConfig → Value → cache.State → Result Fields × cache.State
  cache_fetch config field_value st =
      if config.key_pattern == ""
      then (err (plain "key_pattern is required for cache provider"), st)
      else let key = filled texts field_value config.key_pattern in
        let (answer, st') = cache.get key st in (cached key answer, st')
