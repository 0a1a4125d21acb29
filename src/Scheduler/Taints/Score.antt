-- ===== src/Scheduler/Taints/Score.antt =====
-- The normalised scores.
use kubeadmiral.Base.{
  ℕ, ◌*◌, ◌/◌, ◌≤◌, ◌<◌, eqb→eq, ◌≡◌, List, [], ◌∷◌, true, false, Bool, arith, All, ltb, eqb, map,
  if◌then◌else◌, All-map, Bool-cases, inl, inr,
}
use kubeadmiral.Scheduler.Types.{ClusterScore}
use kubeadmiral.Scheduler.Taints.{max_score, default_normalize_score}

max_score-le : (m : ℕ) (ss : List ClusterScore) → m ≤ max_score m ss
unfolding max_score
max_score-le m [] = omega arith
max_score-le m (s ∷ ss) = ground (arith, max_score-le (if ltb m s.score then s.score else m) ss)

le-max_score : (m : ℕ) (ss : List ClusterScore) → All (λ s. s.score ≤ max_score m ss) ss
unfolding max_score
le-max_score m [] = tt
le-max_score m (s ∷ ss) = (
  ground (arith, max_score-le (if ltb m s.score then s.score else m) ss),
  le-max_score (if ltb m s.score then s.score else m) ss,
)

product_le : (p s m : ℕ) → s ≤ m → s * p ≤ p * m
product_le p s m h = grind arith

quotient_le : (x q m : ℕ) → 0 < m → x ≤ q * m → x / m ≤ q
quotient_le x q m pos h = grind arith

scaled_le : (p s m : ℕ) → 0 < m → s ≤ m → p * s / m ≤ p
scaled_le p s m pos h = quotient_le (p * s) p m pos (omega (arith, product_le p s m h))

All-image :
    (P : ClusterScore → Type 0) (f : ClusterScore → ClusterScore) (ss : List ClusterScore)
    → All (λ s. P (f s)) ss
    → All P (map f ss)
All-image P f [] h = tt
All-image P f (s ∷ ss) h = (h.0, All-image P f ss h.1)

flat_le :
    (p : ℕ) (reverse : Bool) (scores : List ClusterScore)
    → All (λ s. s.score ≤ max_score 0 scores) scores
    → max_score 0 scores ≡ 0
    → All
        (λ s. s.score ≤ p)
        (if reverse then map (λ (s : ClusterScore). record s { score = p }) scores else scores)
flat_le p true scores h e =
    All-image (λ s. s.score ≤ p) (λ (s : ClusterScore). record s { score = p }) scores
      (All-map (λ s k. omega arith) scores h)
flat_le p false scores h e = All-map (λ s k. omega (arith, e)) scores h

-- No normalised score exceeds the maximum priority, reversed or not.
pub default_normalize_score-le :
    (max_priority : ℕ) (reverse : Bool) (scores : List ClusterScore)
    → All (λ s. s.score ≤ max_priority) (default_normalize_score max_priority reverse scores)
unfolding default_normalize_score
default_normalize_score-le p reverse scores = elim (Bool-cases (eqb (max_score 0 scores) 0)) [
  | inl flat ↦ rw flat (flat_le p reverse scores (le-max_score 0 scores) (eqb→eq _ 0 flat))
  | inr some_score ↦ rw some_score (
      All-image (λ s. s.score ≤ p) _ scores
        (All-map (λ s h. ground (arith, scaled_le p s.score (max_score 0 scores))) scores
          (le-max_score 0 scores)))
]
