-- ===== src/Fat/Count.antt =====
-- How many of the entries `2 .. 2 + n` of a table hold zero.
use userfs.Prelude.{
  ℕ, zero, suc, ◌+◌, ◌≤◌, ◌<◌, ◌≡◌, ◌≢◌, refl, ap, arith, ◌==◌, if◌then◌else◌, inl, inr, eq_cases,
}

unfoldable pub zeros : (ℕ → ℕ) → ℕ → ℕ
zeros f zero = 0
zeros f (suc n) = if f (n + 2) == 0 then suc (zeros f n) else zeros f n

-- Two tables that agree below `n` have as many zeros.
pub zeros_same :
    (f g : ℕ → ℕ) (n : ℕ) → ((e : ℕ) → 2 ≤ e → e < n + 2 → f e ≡ g e) → zeros f n ≡ zeros g n
unfolding zeros
zeros_same f g zero same = refl
zeros_same f g (suc n) same = ground (
  arith,
  same (n + 2) (omega arith) (omega arith),
  zeros_same f g n (λ e lo hi. same e lo (omega arith)),
)

-- Filling one zero entry takes one off the count.
pub zeros_fill :
    (f g : ℕ → ℕ) (c n : ℕ)
    → 2 ≤ c
    → c < n + 2
    → f c ≡ 0
    → g c ≢ 0
    → ((e : ℕ) → 2 ≤ e → e < n + 2 → e ≢ c → f e ≡ g e)
    → zeros f n ≡ zeros g n + 1
unfolding zeros
zeros_fill f g c zero lo hi fc gc same = absurd (omega arith)
zeros_fill f g c (suc n) lo hi fc gc same = elim (eq_cases (n + 2) c) [
  | inl here ↦ ground (
    arith,
    zeros_same f g n (λ e l h. same e l (omega arith) (omega arith)),
    ap f here,
    ap g here,
  )
  | inr there ↦ ground (
    arith,
    same (n + 2) (omega arith) (omega arith) there,
    zeros_fill f g c n lo (omega arith) fc gc (λ e l h ne. same e l (omega arith) ne),
  )
]

-- The number of zeros is at most the number of entries.
pub zeros-le : (f : ℕ → ℕ) (n : ℕ) → zeros f n ≤ n
unfolding zeros
zeros-le f zero = omega arith
zeros-le f (suc n) = ground (arith, zeros-le f n)
