-- ===== src/RateLimit.antt =====
-- pkg/ratelimit/middleware.go: a limiter for each client. Package golang.org/x/time/rate is a
-- parameter; the headers are in RateLimit.Headers.
pub mod Headers
use yeti.Base.{
  ap, ℕ, ◌-◌, String, ◌≡◌, refl, Bool, false, none, some, List, [], ◌∷◌, arith, ◌==◌, if◌then◌else◌,
  ltb, text-cases, inl, inr,
}
use yeti.Base.Dict.{Dict, lookup, insert, lookup-insert}

-- `rate.Limiter`: `start` is a new one of the configured rate and burst, and `allow` is `Allow()` at
-- a time.
pub record Rate : Type 1 where
  pub State : Type 0
  pub start : State
  pub allow : ℕ → State → Bool × State

module _ (rate : Rate) where
  pub record Limiter : Type 0 where
    pub limiter : Rate.State rate
    pub last_seen : ℕ

  unfoldable pub client_ip : String → String → String
  client_ip client remote = if client == "" then remote else client

  abbrev pub limiter_of : String → Dict Limiter → rate.State
  limiter_of ip limiters = elim (lookup ip limiters) [ none ↦ rate.start | some l ↦ l.limiter ]

  -- A request of a client: whether it is let through, and the limiters behind it.
  unfoldable pub request : String → ℕ → Dict Limiter → Bool × Dict Limiter
  request ip now limiters =
      let (allowed, state) = rate.allow now (limiter_of ip limiters) in
      (allowed, insert ip (record { limiter = state; last_seen = now }) limiters)

  -- The cleanup: what was not seen for longer than `max_age` is deleted.
  unfoldable pub cleanup : ℕ → ℕ → Dict Limiter → Dict Limiter
  cleanup max_age now [] = []
  cleanup max_age now ((ip, l) ∷ limiters) =
      let rest = cleanup max_age now limiters in
      if ltb max_age (now - l.last_seen) then rest else (ip, l) ∷ rest

  -- The answers to the requests of one client among those of all.
  abbrev pub answers : String → List (String × ℕ) → Dict Limiter → List Bool
  answers who [] limiters = []
  answers who ((ip, now) ∷ requests) limiters =
      let (allowed, limiters') = request ip now limiters in
      let rest = answers who requests limiters' in if ip == who then allowed ∷ rest else rest

  abbrev pub times : String → List (String × ℕ) → List ℕ
  times who [] = []
  times who ((ip, now) ∷ requests) =
      let rest = times who requests in if ip == who then now ∷ rest else rest

  -- The answers of one limiter to requests at some times.
  abbrev pub alone : rate.State → List ℕ → List Bool
  alone state [] = []
  alone state (now ∷ later) =
      let (allowed, state') = rate.allow now state in allowed ∷ alone state' later

  limiter_of-request :
      (who ip : String) (now : ℕ) (limiters : Dict Limiter)
      → limiter_of who (request ip now limiters).1 ≡ (
          if ip == who
          then (rate.allow now (limiter_of who limiters)).1
          else limiter_of who limiters)
  unfolding request
  limiter_of-request who ip now limiters = elim (text-cases ip who) [
    | inl (e, p) ↦ ground (
      arith,
      lookup-insert ip who
          (record { limiter = (rate.allow now (limiter_of ip limiters)).1; last_seen = now })
          limiters,
      ap (λ k. limiter_of k limiters) p,
    )
    | inr (e, p) ↦ ground (
      arith,
      lookup-insert ip who
          (record { limiter = (rate.allow now (limiter_of ip limiters)).1; last_seen = now })
          limiters,
    )
  ]

  -- Between two cleanups, each client is answered as by a limiter of its own: the requests of the others
  -- neither use up its rate nor give it any.
  pub answers-alone :
      (who : String) (requests : List (String × ℕ)) (limiters : Dict Limiter)
      → answers who requests limiters ≡ alone (limiter_of who limiters) (times who requests)
  unfolding request
  answers-alone who [] limiters = refl
  answers-alone who ((ip, now) ∷ requests) limiters =
      let (allowed, limiters') = request ip now limiters in
      elim (text-cases ip who) [
        | inl (e, p) ↦ ground (
          arith,
          answers-alone who requests limiters',
          limiter_of-request who ip now limiters,
          ap (λ k. limiter_of k limiters) p,
        )
        | inr (e, p) ↦
            ground
              (arith, answers-alone who requests limiters', limiter_of-request who ip now limiters)
      ]

  -- The cleanup keeps the limiter of a client that was seen within the allowed age.
  pub lookup-cleanup :
      (max_age now : ℕ) (ip : String) (l : Limiter) (limiters : Dict Limiter)
      → lookup ip limiters ≡ some l
      → ltb max_age (now - l.last_seen) ≡ false
      → lookup ip (cleanup max_age now limiters) ≡ some l
  unfolding cleanup lookup
  lookup-cleanup max_age now ip l [] h young = absurd (ground arith)
  lookup-cleanup max_age now ip l ((j, m) ∷ limiters) h young = elim (text-cases j ip) [
    | inl (e, p) ↦ ground arith
    | inr (e, p) ↦ ground (arith, lookup-cleanup max_age now ip l limiters)
  ]
