-- ===== src/Operator/Scaling/Target.antt =====
-- The target against its description: the fewest replicas, within the limits, that keep the queue
-- per replica at or below the threshold.
use velo_infra_playground.Prelude.{
  ℕ, ◌+◌, ◌-◌, ◌*◌, ◌/◌, ◌^◌, ◌≤◌, ◌<◌, ◌≡◌, ◌⊎◌, inl, inr, arith, Bool-cases, if◌then◌else◌, ltb,
  leb, true, false,
}
use velo_infra_playground.Prelude.Int.{ℤ, pos, ◌≤ℤ◌, ◌<ℤ◌}
use velo_infra_playground.Prelude.Words.{wrap32_id}
use velo_infra_playground.Operator.Types.{SentinelDeploymentSpec}
use velo_infra_playground.Operator.Scaling.{
  ceil_div, target_replicas, or_default, min_replicas_of, max_replicas_of, threshold_of,
}

ceil : ℕ → ℕ → ℕ
ceil q t = (q + t - 1) / t

-- The rounded quotient is the least number of shares of size t that cover q.
ceil_least : (q t n : ℕ) → 0 < t → q ≤ n * t → ceil q t ≤ n
unfolding ceil
ceil_least q t n h k = grind arith

ceil_covers : (q t : ℕ) → 0 < t → q ≤ ceil q t * t
unfolding ceil
ceil_covers q t h = grind arith

mul_mono : (a b t : ℕ) → a ≤ b → a * t ≤ b * t
mul_mono a b t h = grind arith

covered : (q t m : ℕ) → 0 < t → ceil q t ≤ m → q ≤ m * t
covered q t m h k = omega (arith, ceil_covers q t h, mul_mono (ceil q t) m t k)

leb→le : (a b : ℕ) → leb a b ≡ true → a ≤ b
leb→le a b h = ground arith

ltb→lt : (a b : ℕ) → ltb a b ≡ true → a < b
ltb→lt a b h = ground arith

not_ltb→le : (a b : ℕ) → ltb a b ≡ false → b ≤ a
not_ltb→le a b h = ground arith

above_pred : (r lo : ℕ) → leb r lo ≡ false → lo ≤ r - 1
above_pred r lo h = ground arith

above-⊥ : (r lo : ℕ) → leb r lo ≡ false → r ≤ r - 1 → ⊥
above-⊥ r lo h k = ground arith

ceil-le : (q t : ℕ) → 0 < t → ceil q t ≤ q
ceil-le q t h = ceil_least q t q h (grind arith)

clamp : ℕ → ℕ → ℕ → ℕ
clamp lo hi n = let m = if ltb n lo then lo else n in if ltb hi m then hi else m

target_replicas-clamp :
    (lo hi t q : ℕ)
    → 0 < t
    → q < 2 ^ 31
    → target_replicas (pos lo) (pos hi) (pos t) (pos q) ≡ pos (clamp lo hi (ceil q t))
unfolding target_replicas ceil_div ceil clamp
target_replicas-clamp lo hi t q h k =
    ground
      (arith, wrap32_id (pos ((q + t - 1) / t)) (record { above = omega arith; below = small }))
  where
    small : (q + t - 1) / t < 2 ^ 31
    small = omega (arith, ceil-le q t h)

-- Between limits lo ≤ hi, with a positive threshold t, the target is the least number of replicas
-- within the limits that the queue asks for: it lies within them, it covers the queue unless it is
-- the upper limit, and one replica less, if the lower limit allows it, does not.
pub target_replicas-fewest :
    (lo hi t q : ℕ)
    → 0 < t
    → q < 2 ^ 31
    → lo ≤ hi
    → (r : ℕ) × (target_replicas (pos lo) (pos hi) (pos t) (pos q) ≡ pos r)
      × (lo ≤ r)
      × (r ≤ hi)
      × ((q ≤ r * t) ⊎ (r ≡ hi))
      × ((r ≡ lo) ⊎ ((r - 1) * t < q))
unfolding clamp
target_replicas-fewest lo hi t q h k limits = (
  clamp lo hi (ceil q t),
  target_replicas-clamp lo hi t q h k,
  ground arith,
  ground arith,
  covers,
  fewest,
)
  where
    covers : (q ≤ clamp lo hi (ceil q t) * t) ⊎ (clamp lo hi (ceil q t) ≡ hi)
    covers = elim (Bool-cases (leb (ceil q t) (clamp lo hi (ceil q t)))) [
      | inl enough ↦ inl (covered q t _ h (leb→le _ _ enough))
      | inr short ↦ inr (ground arith)
    ]

    least : (n : ℕ) → lo ≤ n → q ≤ n * t → clamp lo hi (ceil q t) ≤ n
    least n a b = ground (arith, ceil_least q t n h b)

    above_least : leb (clamp lo hi (ceil q t)) lo ≡ false → q ≤ (clamp lo hi (ceil q t) - 1) * t → ⊥
    above_least above enough =
        above-⊥ (clamp lo hi (ceil q t)) lo above
          (least (clamp lo hi (ceil q t) - 1) (above_pred _ _ above) enough)

    fewest : (clamp lo hi (ceil q t) ≡ lo) ⊎ ((clamp lo hi (ceil q t) - 1) * t < q)
    fewest = elim (Bool-cases (leb (clamp lo hi (ceil q t)) lo)) [
      | inl lowest ↦ inl (ground arith)
      | inr above ↦ elim (Bool-cases (ltb ((clamp lo hi (ceil q t) - 1) * t) q)) [
        | inl short ↦ inr (ltb→lt _ _ short)
        | inr enough ↦ absurd (above_least above (not_ltb→le _ _ enough))
      ]
    ]

-- Whatever the resource's parameters and the queue, the target is at least one replica and at most
-- the upper limit, and at least the lower limit unless that is above the upper one.
pub target_replicas-limits :
    (spec : SentinelDeploymentSpec) (queue : ℤ)
    → let target =
        target_replicas (min_replicas_of spec) (max_replicas_of spec) (threshold_of spec) queue in
      (pos 1 ≤ℤ target)
      × (target ≤ℤ max_replicas_of spec)
      × ((min_replicas_of spec ≤ℤ target) ⊎ (max_replicas_of spec <ℤ min_replicas_of spec))
unfolding target_replicas min_replicas_of max_replicas_of or_default
target_replicas-limits spec queue = ground arith
