-- ===== src/Ingester/Config.antt =====
-- `withDefaults`: what it guarantees to the rest of the ingester.
use take_home_assignments.Prelude.{◌≡◌, refl, ℕ, zero, suc, arith}
use take_home_assignments.Prelude.Int.{ℤ, pos, negsuc}
use take_home_assignments.Ingester.{IngesterConfig, or_default, with_defaults}

-- A positive integer, with its value.
abbrev pub IsPositive : ℤ → Type 0
IsPositive a = (n : ℕ) × (a ≡ pos (suc n))

or_default-IsPositive : (a b : ℤ) → IsPositive b → IsPositive (or_default a b)
unfolding or_default
or_default-IsPositive (pos zero) b h = h
or_default-IsPositive (pos (suc n)) b h = (n, ground arith)
or_default-IsPositive (negsuc n) b h = h

or_default_kept : (a b : ℤ) → IsPositive a → or_default a b ≡ a
unfolding or_default
or_default_kept a b (n, e) = ground arith

-- Every setting is positive after `withDefaults`, and to apply it again changes nothing.
pub with_defaults-IsPositive :
    (c : IngesterConfig)
    → IsPositive (with_defaults c).max_batch_points
      × IsPositive (with_defaults c).flush_interval
      × IsPositive (with_defaults c).queue_capacity
      × IsPositive (with_defaults c).dedup_cache_size
      × (with_defaults (with_defaults c) ≡ with_defaults c)
unfolding with_defaults
with_defaults-IsPositive c =
    let batch = or_default-IsPositive c.max_batch_points (pos 50_000) (49_999, refl) in
    let interval = or_default-IsPositive c.flush_interval (pos 200_000_000) (199_999_999, refl) in
    let queue = or_default-IsPositive c.queue_capacity (pos 1024) (1023, refl) in
    let dedup = or_default-IsPositive c.dedup_cache_size (pos 1_000_000) (999_999, refl) in
    (
      batch,
      interval,
      queue,
      dedup,
      λ i. record {
        max_batch_points = or_default_kept _ (pos 50_000) batch i;
        flush_interval = or_default_kept _ (pos 200_000_000) interval i;
        queue_capacity = or_default_kept _ (pos 1024) queue i;
        dedup_cache_size = or_default_kept _ (pos 1_000_000) dedup i;
      },
    )
