-- ===== src/Continuous/Backoff.antt =====
-- The waits after errors: both functions agree, up to which number of errors they are right, and what
-- comes after it.
use native.Mathlib.Nat
use deespec.Base.{
  ℕ, zero, suc, ◌≡◌, refl, sym, ap, ◌∙◌, ◌<◌, ◌≤◌, ◌*◌, ◌+◌, ◌%◌, ◌^◌, arith, ltb, if◌then◌else◌,
}
use deespec.Continuous.Interval.{
  word, max_backoff, duration_of_power, capped, calculate_next_interval, doubled,
  manager_next_interval,
}

scaled : (n b : ℕ) → 2 ^ n * (b * 2) ≡ 2 ^ suc n * b
scaled n b =
    ap (λ y. 2 ^ n * y) (Nat.mul_comm b 2)
    ∙ sym (Nat.mul_assoc (2 ^ n) 2 b)
    ∙ ap (λ y. y * b) (sym (Nat.pow-suc 2 n))

doubled-word : (n x : ℕ) → doubled n (x % word) ≡ (2 ^ n * x) % word
unfolding doubled
doubled-word zero x = omega arith
doubled-word (suc n) x =
    ap (doubled n) (omega arith) ∙ doubled-word n (x * 2) ∙ ap (λ y. y % word) (scaled n x)

doubled-scaled : (n b : ℕ) → b < word → doubled n b ≡ (2 ^ n * b) % word
doubled-scaled n b small = ap (doubled n) (omega (arith, small)) ∙ doubled-word n b

-- For an int64 and up to 62 errors both functions give the same wait, whatever a larger float becomes.
pub next_intervals_agree :
    (large : ℕ → ℕ) (base_interval consecutive_errors : ℕ)
    → base_interval < word
    → consecutive_errors < 63
    → calculate_next_interval large base_interval consecutive_errors
      ≡ manager_next_interval base_interval consecutive_errors
unfolding calculate_next_interval manager_next_interval duration_of_power
next_intervals_agree large b n small few =
    ground (arith, ap capped (sym (doubled-scaled n b small)))

scaled_small : (n b : ℕ) → n ≤ 23 → b ≤ 600000000000 → 2 ^ n * b ≤ 8388608 * 600000000000
scaled_small n b few small = Nat.mul-le-mul (Nat.pow-le-pow_right (omega arith) few) small

scaled_positive : (n b : ℕ) → 0 < b → 0 < 2 ^ n * b
scaled_positive n b positive = Nat.one-le-mul (Nat.one-le-pow n 2 (omega arith)) positive

-- Up to 23 errors, and for an interval that the parser lets through, the wait after errors is the
-- interval doubled once for each error, but at most ten seconds; it is longer than nothing.
pub manager_next_interval-backoff :
    (base_interval consecutive_errors : ℕ)
    → 0 < base_interval
    → base_interval ≤ 600000000000
    → 0 < consecutive_errors
    → consecutive_errors ≤ 23
    → (manager_next_interval base_interval consecutive_errors ≡ (
        if ltb max_backoff (2 ^ consecutive_errors * base_interval)
        then max_backoff
        else 2 ^ consecutive_errors * base_interval))
      × (0 < manager_next_interval base_interval consecutive_errors)
      × (manager_next_interval base_interval consecutive_errors ≤ max_backoff)
unfolding manager_next_interval capped
manager_next_interval-backoff b n positive small some few = ground (
  arith,
  doubled-scaled n b (omega (arith, small)),
  scaled_small n b few small,
  scaled_positive n b positive,
)

power_split : (k : ℕ) → 2 ^ (64 + k) ≡ word * 2 ^ k
power_split zero = refl
power_split (suc k) =
    ap (λ n. 2 ^ n) (omega arith)
    ∙ Nat.pow-suc 2 (64 + k)
    ∙ ap (λ y. y * 2) (power_split k)
    ∙ Nat.mul_assoc word (2 ^ k) 2
    ∙ ap (λ y. word * y) (sym (Nat.pow-suc 2 k))

power_vanishes : (k b : ℕ) → (2 ^ (64 + k) * b) % word ≡ 0
power_vanishes k b =
    ap (λ y. (y * b) % word) (power_split k)
    ∙ ap (λ y. y % word) (Nat.mul_assoc word (2 ^ k) b)
    ∙ Nat.mul-mod_right word (2 ^ k * b)

-- After 64 errors or more the wait is over at once: all bits of the interval are shifted out.
pub manager_next_interval-exhausted :
    (base_interval more : ℕ)
    → base_interval < word
    → manager_next_interval base_interval (64 + more) ≡ 0
unfolding manager_next_interval capped
manager_next_interval-exhausted b k small =
    ground (arith, doubled-scaled (64 + k) b small, power_vanishes k b)
