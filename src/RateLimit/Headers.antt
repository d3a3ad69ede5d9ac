-- ===== src/RateLimit/Headers.antt =====
-- pkg/ratelimit/middleware.go: what a limited or an allowed request is answered. The limiter's burst
-- and the whole part of its tokens, the rate as `int`, and `strconv.Itoa` are parameters.
use yeti.Base.{ℕ, ◌+◌, ◌-◌, String, Bool, true, [], ◌∷◌, if◌then◌else◌}
use yeti.Base.Int.{ℤ, pos, negsuc, pos_part, neg_part, ltz}
use yeti.Base.Dict.{insert}
use yeti.Middleware.{Handler, Gin, returned}

-- `a - b`.
abbrev minus_parts : ℕ → ℕ → ℤ
minus_parts up down = if ltz (pos up) (pos down) then negsuc (down - up - 1) else pos (up - down)

unfoldable pub minus : ℤ → ℤ → ℤ
minus a b = minus_parts (pos_part a + neg_part b) (pos_part b + neg_part a)

-- The number of the header "X-RateLimit-Remaining".
unfoldable pub remaining : ℤ → ℤ → ℤ
remaining burst tokens = let left = minus burst tokens in if ltz left (pos 0) then pos 0 else left

module _ (itoa : ℤ → String) (rps : ℤ) where
  unfoldable pub limited : Gin → Gin
  limited c = record c {
    status = 429;
    body = ("error", "rate limit exceeded") ∷ ("error_code", "RATE_LIMIT_EXCEEDED") ∷ [];
    headers =
        insert "Retry-After" "1"
          (insert "X-RateLimit-Remaining" "0" (insert "X-RateLimit-Limit" (itoa rps) c.headers));
    aborted = true;
  }

  unfoldable pub allowed : ℤ → ℤ → Gin → Gin
  allowed burst tokens c = record c {
    headers =
        insert "X-RateLimit-Remaining" (itoa (remaining burst tokens))
          (insert "X-RateLimit-Limit" (itoa rps) c.headers);
  }

  -- The part of the function behind `Allow()`, which answers `allow` and leaves the given tokens.
  unfoldable pub answer_request : Bool → ℤ → ℤ → Handler → Handler
  answer_request allow burst tokens next r c =
      if allow then next r (allowed burst tokens c) else returned (limited c)
