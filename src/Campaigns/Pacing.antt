-- ===== src/Campaigns/Pacing.antt =====
-- The pauses between messages, from backend/src/campaigns/campaign-processor.ts. A random number
-- is `Math.floor(Math.random() * size)`, which is given; it lies below `size`.
use notifymain_wa.Prelude.{ℕ, ◌+◌, ◌-◌, ◌*◌, ◌/◌, ◌%◌, ◌≤◌, ◌<◌, Bool, ◌==◌, max, arith}

abbrev pub min_delay_ms : ℕ
min_delay_ms = 1500

abbrev pub rest_every : ℕ
rest_every = 20

abbrev pub rest_min_ms : ℕ
rest_min_ms = 8000

abbrev pub rest_max_ms : ℕ
rest_max_ms = 15000

-- How many values `randInt(min, max)` can take; the random number is below it.
abbrev pub rand_size : ℕ → ℕ → ℕ
rand_size lo hi = hi - lo + 1

unfoldable pub rand_int : ℕ → ℕ → ℕ
rand_int random lo = random + lo

-- `Math.floor(baseMs * JITTER_FACTOR)` for the factor 0.4
abbrev pub jitter_of : ℕ → ℕ
jitter_of base = base * 2 / 5

-- `baseMs + randInt(-jitter, jitter)`, at least the floor. The jitter is at most the base, so the
-- subtraction of ℕ is exact.
unfoldable pub jittered_delay : (random base : ℕ) → ℕ
jittered_delay random base = max (base + random - jitter_of base) min_delay_ms

unfoldable pub base_delay : ℕ → ℕ
base_delay rate = 60000 / rate

unfoldable pub rest_due : ℕ → Bool
rest_due sent = sent % rest_every == 0

-- For each number that `randInt` can draw, a pause is at least 1.5 s, at least the base less 40 %,
-- and at most the base and 40 % more, or 1.5 s if that is longer.
pub jittered_delay_range :
    (random base : ℕ)
    → random < 2 * jitter_of base + 1
    → (1500 ≤ jittered_delay random base)
      × (jittered_delay random base ≤ max (base + jitter_of base) 1500)
      × (base - jitter_of base ≤ jittered_delay random base)
unfolding jittered_delay
jittered_delay_range random base h = (omega arith, omega arith, omega arith)

-- At any rate that a campaign may have (10 to 60 messages a minute) and for each number
-- that `randInt` can draw, a pause is at least 1.5 s
-- and at most 8.4 s.
pub jittered_delay-base_delay :
    (random rate : ℕ)
    → 10 ≤ rate
    → rate ≤ 60
    → random < 2 * jitter_of (base_delay rate) + 1
    → (1500 ≤ jittered_delay random (base_delay rate))
      × (jittered_delay random (base_delay rate) ≤ 8400)
unfolding base_delay
jittered_delay-base_delay random rate lo hi h =
    let slow : base_delay rate ≤ 6000 = grind arith in
    let (least, most, near) = jittered_delay_range random (base_delay rate) h in
    (least, omega arith)
