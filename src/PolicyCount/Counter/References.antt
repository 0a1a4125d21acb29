-- ===== src/PolicyCount/Counter/References.antt =====
-- The counts are the numbers of references, in every state that the counter reaches.
use kubeadmiral.Base.{
  ◌≡◌, ◌⊎◌, refl, sym, ap, subst, ◌∙◌, ◌≤◌, ℕ, zero, suc, ◌+◌, Option, some, List, [], ◌∷◌, ◌++◌,
  arith, inl, inr, sum_of, if◌then◌else◌, ◌==◌, map,
}
use kubeadmiral.Base.Equality.{Comparable}
use kubeadmiral.Base.Assoc.{
  Map, lookup, insert, erase, or_zero, lookup-insert, lookup-erase, UniqueKeys, insert-UniqueKeys,
  erase-UniqueKeys,
}
use kubeadmiral.Base.Sets.{or_nil}
use kubeadmiral.Base.Chain.{some_eq}
use kubeadmiral.PolicyCount.Counter.{
  Counter, new_counter, remember, decrease, increase, get_policy_counts, update_counter,
}

ℕ-cases : (n : ℕ) → (n ≡ 0) ⊎ ((k : ℕ) × (n ≡ suc k))
ℕ-cases zero = inl refl
ℕ-cases (suc k) = inr (k, refl)

module _ {P : Type 0} ⦃ep : Comparable P⦄ where
  -- How often a policy stands in a list.
  abbrev pub occurrences : P → List P → ℕ
  occurrences p ps = sum_of (λ q. if q == p then 1 else 0) ps

  abbrev pub count_of : P → Map P ℕ → ℕ
  count_of p counts = or_zero (lookup p counts)

  -- How often all the objects together refer to a policy.
  abbrev pub references : {O : Type 0} → P → Map O (List P) → ℕ
  references p known = sum_of (λ x. occurrences p x.1) known

  count_of-insert :
      (p q : P) (n : ℕ) (m : Map P ℕ)
      → count_of q (insert p n m) ≡ (if p == q then n else count_of q m)
  count_of-insert p q n m = ground (arith, lookup-insert p q n m)

  increase-count :
      (p : P) (ps : List P) (m : Map P ℕ)
      → count_of p (increase ps m) ≡ count_of p m + occurrences p ps
  unfolding increase
  increase-count p [] m = omega arith
  increase-count p (q ∷ ps) m = ground (
    arith,
    ep.reflects q p,
    count_of-insert q p (count_of q m + 1) m,
    increase-count p ps (insert q (count_of q m + 1) m),
  )

  occurrences_self : (p : P) (ps : List P) → occurrences p (p ∷ ps) ≡ suc (occurrences p ps)
  occurrences_self p ps = ground (arith, ep.reflects p p)

  -- Where the counts cover the list, each count can be lowered.
  decrease-count :
      (ps : List P) (m : Map P ℕ)
      → ((p : P) → occurrences p ps ≤ count_of p m)
      → (m' : Map P ℕ) × (decrease ps m ≡ some m')
        × ((p : P) → count_of p m' + occurrences p ps ≡ count_of p m)
  unfolding decrease
  decrease-count [] m h = (m, refl, λ p. omega arith)
  decrease-count (q ∷ ps) m h = elim (ℕ-cases (count_of q m)) [
    | inl e ↦ absurd (omega (arith, e, h q, occurrences_self q ps))
    | inr (n, e) ↦
        let (m', f, g) =
          decrease-count ps (insert q n m)
            (λ p. ground (arith, h p, e, ep.reflects q p, count_of-insert q p n m)) in
        (
          m',
          rw (decrease, e) f,
          λ p. ground (arith, g p, e, ep.reflects q p, count_of-insert q p n m),
        )
  ]

module _ {O P : Type 0} ⦃eo : Comparable O⦄ ⦃ep : Comparable P⦄ where
  references-insert :
      (p : P) (o : O) (ps : List P) (m : Map O (List P))
      → references p (insert o ps m) + occurrences p (or_nil (lookup o m))
        ≡ references p m + occurrences p ps
  references-insert p o ps [] = omega arith
  references-insert p o ps ((q, qs) ∷ m) = ground (arith, references-insert p o ps m)

  references-erase :
      (p : P) (o : O) (m : Map O (List P))
      → UniqueKeys m
      → references p (erase o m) + occurrences p (or_nil (lookup o m)) ≡ references p m
  references-erase p o [] u = omega arith
  references-erase p o ((q, qs) ∷ m) u = ground (
    arith,
    eo.reflects q o,
    u.0,
    references-erase p o m u.1,
    ap (λ (x : Option (List P)). occurrences p (or_nil x)) u.0,
  )

  references-remember :
      (p : P) (o : O) (ps : List P) (m : Map O (List P))
      → UniqueKeys m
      → references p (remember o ps m) + occurrences p (or_nil (lookup o m))
        ≡ references p m + occurrences p ps
  unfolding remember
  references-remember p o [] m u = omega (arith, references-erase p o m u)
  references-remember p o (q ∷ ps) m u = references-insert p o (q ∷ ps) m

  remember-UniqueKeys :
      (o : O) (ps : List P) (m : Map O (List P)) → UniqueKeys m → UniqueKeys (remember o ps m)
  unfolding remember
  remember-UniqueKeys o [] m u = erase-UniqueKeys o m u
  remember-UniqueKeys o (q ∷ ps) m u = insert-UniqueKeys o (q ∷ ps) m u

  -- Every object stands once, and each count is the number of references to its policy.
  abbrev pub IsExact : Counter O P → Type 0
  IsExact c =
      UniqueKeys c.known_policies
      × ((p : P) → count_of p c.policy_counts ≡ references p c.known_policies)

  occurrences-or_nil-le :
      (p : P) (o : O) (m : Map O (List P)) → occurrences p (or_nil (lookup o m)) ≤ references p m
  occurrences-or_nil-le p o [] = omega arith
  occurrences-or_nil-le p o ((q, qs) ∷ m) = ground (arith, occurrences-or_nil-le p o m)

  update_counter-IsExact :
      (o : O) (ps : List P) (c : Counter O P)
      → IsExact c
      → (c' : Counter O P) × (update_counter o ps c
          ≡ some (c', or_nil (lookup o c.known_policies) ++ ps))
        × (c'.known_policies ≡ remember o ps c.known_policies)
        × IsExact c'
  unfolding update_counter
  update_counter-IsExact o ps c h =
      let previous = or_nil (lookup o c.known_policies) in
      let (counts, e, kept) =
        decrease-count previous c.policy_counts
          (λ p. omega (arith, h.1 p, occurrences-or_nil-le p o c.known_policies)) in
      (
        record {
          known_policies = remember o ps c.known_policies;
          policy_counts = increase ps counts;
        },
        rw e refl,
        refl,
        (
          remember-UniqueKeys o ps c.known_policies h.0,
          λ p. omega (
            arith,
            h.1 p,
            kept p,
            increase-count p ps counts,
            references-remember p o ps c.known_policies h.0,
          ),
        ),
      )

  -- The counters that a run of updates leads to, from the new one.
  pub data Reached : Counter O P → Type 0 where
    fresh : Reached new_counter
    updated :
        {c c' : Counter O P} (o : O) (ps flagged : List P)
        → Reached c
        → update_counter o ps c ≡ some (c', flagged)
        → Reached c'

  some_pair :
      {c c' : Counter O P} {f f' : List P}
      → ◌≡◌ {A = Option (Counter O P × List P)} (some (c, f)) (some (c', f'))
      → c ≡ c'
  some_pair h = ap (λ (x : Counter O P × List P). x.0) (some_eq h)

  Reached-IsExact : (c : Counter O P) → Reached c → IsExact c
  Reached-IsExact c fresh = (tt, λ p. refl)
  Reached-IsExact c (updated {c = before} o ps flagged r e) =
      let (c', f, same, exact) = update_counter-IsExact o ps before (Reached-IsExact before r) in
      subst IsExact (some_pair (sym f ∙ e)) exact

  counts_of-references :
      (keys : List P) (c : Counter O P)
      → IsExact c
      → get_policy_counts keys c ≡ map (λ p. references p c.known_policies) keys
  unfolding get_policy_counts
  counts_of-references [] c h = refl
  counts_of-references (k ∷ keys) c h = rw (h.1 k, counts_of-references keys c h) refl

  -- In a counter that updates reach, the count of each policy is the number of references to it
  -- in the policies of the known objects.
  pub get_policy_counts-references :
      (c : Counter O P) (keys : List P)
      → Reached c
      → get_policy_counts keys c ≡ map (λ p. references p c.known_policies) keys
  get_policy_counts-references c keys r = counts_of-references keys c (Reached-IsExact c r)

  remember-lookup :
      (o x : O) (ps : List P) (m : Map O (List P))
      → or_nil (lookup x (remember o ps m)) ≡ (if o == x then ps else or_nil (lookup x m))
  unfolding remember
  remember-lookup o x [] m = ground (arith, lookup-erase o x m)
  remember-lookup o x (p ∷ ps) m = ground (arith, lookup-insert o x (p ∷ ps) m)

  -- On a counter that updates reach, `Update` does not panic and flags the object's old and new
  -- policies. Afterwards the object has the new policies, and every other object those that it
  -- had.
  pub update_counter-returns :
      (c : Counter O P) (o x : O) (ps : List P)
      → Reached c
      → (c' : Counter O P) × (update_counter o ps c
          ≡ some (c', or_nil (lookup o c.known_policies) ++ ps))
        × (or_nil (lookup x c'.known_policies)
            ≡ (if o == x then ps else or_nil (lookup x c.known_policies)))
  update_counter-returns c o x ps r =
      let (c', e, same, exact) = update_counter-IsExact o ps c (Reached-IsExact c r) in
      (c', e, ap (λ m. or_nil (lookup x m)) same ∙ remember-lookup o x ps c.known_policies)
