-- ===== src/BinPack/Limits.antt =====
-- What `getDesiredPlan` gives the clusters: within their capacities, and no more than there is.
use kubeadmiral.Base.{
  String, Option, none, some, List, [], ◌∷◌, ◌==◌, string_eq, All, All-map, arith, Bool-cases, inl,
  inr,
}
use kubeadmiral.Base.Int.{ℤ, pos, ◌+ℤ◌, ◌-ℤ◌, ◌≤ℤ◌, ◌≈ℤ◌, int_laws}
use kubeadmiral.Base.Assoc.{Map, lookup, insert, All-insert}
use kubeadmiral.BinPack.{
  NamedClusterPreferences, or_zero_ℤ, min_ℤ, limit_to, Assigned, assign_min, assign_rest,
  assign_mins, assign_rests, assign, get_desired_plan, sum_ℤ,
}

-- The count is no more than the limit, where there is one.
abbrev pub AtMost : Option ℤ → ℤ → Type 0
AtMost none x = Unit
AtMost (some c) x = x ≤ℤ c

abbrev pub NonNegative : Map String ℤ → Type 0
NonNegative = All (λ e. pos 0 ≤ℤ e.1)

abbrev pub OptNonNegative : Option ℤ → Type 0
OptNonNegative none = Unit
OptNonNegative (some c) = pos 0 ≤ℤ c

pub sum_ℤ-insert :
    (k : String) (v : ℤ) (m : Map String ℤ)
    → sum_ℤ (insert k v m) +ℤ or_zero_ℤ (lookup k m) ≈ℤ sum_ℤ m +ℤ v
unfolding sum_ℤ
sum_ℤ-insert k v [] = omega int_laws
sum_ℤ-insert k v ((j, w) ∷ m) = elim (Bool-cases (j == k)) [
  | inl e ↦ rw e (omega int_laws)
  | inr e ↦ rw e (omega (int_laws, sum_ℤ-insert k v m))
]

pub lookup-NonNegative :
    (k : String) (m : Map String ℤ) → NonNegative m → OptNonNegative (lookup k m)
lookup-NonNegative k [] h = tt
lookup-NonNegative k ((j, w) ∷ m) h = elim (Bool-cases (j == k)) [
  | inl e ↦ rw e h.0
  | inr e ↦ rw e (lookup-NonNegative k m h.1)
]

limit_to-AtMost : (o : Option ℤ) (x : ℤ) → AtMost o (limit_to o x)
limit_to-AtMost none x = tt
limit_to-AtMost (some c) x = ground arith

limit_to-le : (o : Option ℤ) (x : ℤ) → limit_to o x ≤ℤ x
limit_to-le none x = omega int_laws
limit_to-le (some c) x = ground arith

limit_to-nonneg : (o : Option ℤ) (x : ℤ) → OptNonNegative o → pos 0 ≤ℤ x → pos 0 ≤ℤ limit_to o x
limit_to-nonneg none x h k = k
limit_to-nonneg (some c) x h k = ground (arith, h, k)

AtMost-le : (o : Option ℤ) (x y : ℤ) → x ≤ℤ y → AtMost o y → AtMost o x
AtMost-le none x y h k = tt
AtMost-le (some c) x y h k = omega (int_laws, h, k)

module _ (estimated limited : Map String ℤ) where
  -- The count is not negative, and within the cluster's capacities.
  abbrev pub Fits : String × ℤ → Type 0
  Fits e = (pos 0 ≤ℤ e.1) × AtMost (lookup e.0 limited) e.1 × AtMost (lookup e.0 estimated) e.1

  module _ (est : NonNegative estimated) (lim : NonNegative limited) where
    placed-Fits :
        (name : String) (x : ℤ)
        → pos 0 ≤ℤ x
        → Fits (name, limit_to (lookup name estimated) (limit_to (lookup name limited) x))
    placed-Fits name x h =
        let within = limit_to (lookup name limited) x in
        (
          limit_to-nonneg _ _ (lookup-NonNegative name estimated est)
              (limit_to-nonneg _ x (lookup-NonNegative name limited lim) h),
          AtMost-le _ _ within (limit_to-le (lookup name estimated) within)
              (limit_to-AtMost (lookup name limited) x),
          limit_to-AtMost (lookup name estimated) within,
        )

    placed-le :
        (name : String) (x : ℤ)
        → limit_to (lookup name estimated) (limit_to (lookup name limited) x) ≤ℤ x
    placed-le name x = omega (
      int_laws,
      limit_to-le (lookup name estimated) (limit_to (lookup name limited) x),
      limit_to-le (lookup name limited) x,
    )

    module _ (n : ℤ) where
      -- No more than `n` is given away, and every count fits.
      pub record Sound (s : Assigned) : Type 0 where
        pub left : pos 0 ≤ℤ s.remaining
        pub fits : All Fits s.plan
        pub most : sum_ℤ s.plan +ℤ s.remaining ≤ℤ n

      start-nonneg : (k : String) (m : Map String ℤ) → All Fits m → pos 0 ≤ℤ or_zero_ℤ (lookup k m)
      start-nonneg k [] h = omega int_laws
      start-nonneg k ((j, w) ∷ m) h = elim (Bool-cases (j == k)) [
        | inl e ↦ rw e h.0.0
        | inr e ↦ rw e (start-nonneg k m h.1)
      ]

      total_le :
          (new start old placed remaining left : ℤ)
          → new +ℤ start ≈ℤ old +ℤ placed
          → left ≤ℤ remaining -ℤ (placed -ℤ start)
          → old +ℤ remaining ≤ℤ n
          → new +ℤ left ≤ℤ n
      total_le new start old placed remaining left h k l = omega (int_laws, h, k, l)

      -- What both loops do: a cluster's count becomes what fits of `x`, and what is left changes
      -- by the difference.
      replace-Sound :
          (name : String) (x left : ℤ) (s : Assigned) (overflow : Map String ℤ)
          → Sound s
          → pos 0 ≤ℤ x
          → let placed = limit_to (lookup name estimated) (limit_to (lookup name limited) x) in
            pos 0 ≤ℤ left
            → left ≤ℤ s.remaining -ℤ (placed -ℤ or_zero_ℤ (lookup name s.plan))
            → Sound
                (record { remaining = left; plan = insert name placed s.plan; overflow = overflow })
      replace-Sound name x left s overflow h nonneg l k = record {
        left = l;
        fits = All-insert Fits name _ s.plan (placed-Fits name x nonneg) h.fits;
        most =
            total_le (sum_ℤ (insert name _ s.plan)) _ (sum_ℤ s.plan) _ s.remaining left
              (sum_ℤ-insert name _ s.plan) k h.most;
      }

      min_nonneg : (a b : ℤ) → pos 0 ≤ℤ a → pos 0 ≤ℤ b → pos 0 ≤ℤ min_ℤ a b
      min_nonneg a b h k = ground (arith, h, k)

      min_le : (a b : ℤ) → min_ℤ a b ≤ℤ b
      min_le a b = ground arith

      left_nonneg : (remaining placed : ℤ) → placed ≤ℤ remaining → pos 0 ≤ℤ remaining -ℤ placed
      left_nonneg remaining placed h = omega (int_laws, h)

      left_le :
          (remaining placed start : ℤ)
          → pos 0 ≤ℤ start
          → remaining -ℤ placed ≤ℤ remaining -ℤ (placed -ℤ start)
      left_le remaining placed start h = omega (int_laws, h)

      sum_nonneg : (a b : ℤ) → pos 0 ≤ℤ a → pos 0 ≤ℤ b → pos 0 ≤ℤ a +ℤ b
      sum_nonneg a b h k = omega (int_laws, h, k)

      rest_nonneg :
          (remaining placed start : ℤ)
          → placed ≤ℤ start +ℤ remaining
          → pos 0 ≤ℤ remaining -ℤ (placed -ℤ start)
      rest_nonneg remaining placed start h = omega (int_laws, h)

      assign_min-Sound :
          (p : NamedClusterPreferences) (s : Assigned)
          → pos 0 ≤ℤ p.preferences.min_replicas
          → Sound s
          → Sound (assign_min estimated limited p s)
      unfolding assign_min
      assign_min-Sound p s nonneg h =
          replace-Sound p.cluster_name (min_ℤ p.preferences.min_replicas s.remaining) _ s _ h
            (min_nonneg _ _ nonneg h.left)
            (left_nonneg _ _ (
              omega (
                int_laws,
                placed-le p.cluster_name (min_ℤ p.preferences.min_replicas s.remaining),
                min_le p.preferences.min_replicas s.remaining,
              )))
            (left_le _ _ _ (start-nonneg p.cluster_name s.plan h.fits))

      assign_rest-Sound :
          (p : NamedClusterPreferences) (s : Assigned)
          → OptNonNegative p.preferences.max_replicas
          → Sound s
          → Sound (assign_rest estimated limited p s)
      unfolding assign_rest
      assign_rest-Sound p s nonneg h =
          replace-Sound p.cluster_name _ _ s _ h
            (limit_to-nonneg _ _ nonneg
              (sum_nonneg _ _ (start-nonneg p.cluster_name s.plan h.fits) h.left))
            (rest_nonneg _ _ _ (
              omega (
                int_laws,
                placed-le p.cluster_name (
                    limit_to p.preferences.max_replicas
                      (or_zero_ℤ (lookup p.cluster_name s.plan) +ℤ s.remaining)),
                limit_to-le p.preferences.max_replicas
                    (or_zero_ℤ (lookup p.cluster_name s.plan) +ℤ s.remaining),
              )))
            (omega arith)

      assign_mins-Sound :
          (ps : List NamedClusterPreferences) (s : Assigned)
          → All (λ p. pos 0 ≤ℤ p.preferences.min_replicas) ps
          → Sound s
          → Sound (assign_mins estimated limited ps s)
      unfolding assign_mins
      assign_mins-Sound [] s v h = h
      assign_mins-Sound (p ∷ ps) s v h = assign_mins-Sound ps _ v.1 (assign_min-Sound p s v.0 h)

      assign_rests-Sound :
          (ps : List NamedClusterPreferences) (s : Assigned)
          → All (λ p. OptNonNegative p.preferences.max_replicas) ps
          → Sound s
          → Sound (assign_rests estimated limited ps s)
      unfolding assign_rests
      assign_rests-Sound [] s v h = h
      assign_rests-Sound (p ∷ ps) s v h = assign_rests-Sound ps _ v.1 (assign_rest-Sound p s v.0 h)

    -- The preferences ask for no negative count.
    abbrev pub Valid : NamedClusterPreferences → Type 0
    Valid p = (pos 0 ≤ℤ p.preferences.min_replicas) × OptNonNegative p.preferences.max_replicas

    pub assign-Sound :
        (ps : List NamedClusterPreferences) (n : ℤ)
        → All Valid ps
        → pos 0 ≤ℤ n
        → Sound n (assign estimated limited ps n)
    unfolding assign sum_ℤ
    assign-Sound ps n v nonneg = assign_rests-Sound n ps _ (All-map (λ p h. h.1) ps v) (
        assign_mins-Sound n ps _ (All-map (λ p h. h.0) ps v)
          (record { left = nonneg; fits = tt; most = start n }))
      where
        start : (n : ℤ) → sum_ℤ [] +ℤ n ≤ℤ n
        start n = omega int_laws

    -- Where the limited capacities, the minimums, the maximums and the replicas asked for are
    -- not negative, and neither are the estimated capacities, the counts add up to at most
    -- the replicas asked for, none is negative, and each is within its cluster's capacities,
    -- where it has them.
    pub get_desired_plan-Fits :
        (ps : List NamedClusterPreferences) (n : ℤ)
        → All Valid ps
        → pos 0 ≤ℤ n
        → (sum_ℤ (get_desired_plan estimated limited ps n).0 ≤ℤ n)
          × All Fits (get_desired_plan estimated limited ps n).0
    unfolding get_desired_plan
    get_desired_plan-Fits ps n v nonneg =
        let h = assign-Sound ps n v nonneg in (omega (int_laws, h.most, h.left), h.fits)
