-- ===== src/Planner/Scale/Counts.antt =====
-- What adding and subtracting a map of counts does to a map, and how the counts by which two maps
-- differ bound the difference of their sums.
use kubeadmiral.Base.{
  ℕ, ◌+◌, ◌-◌, ◌≤◌, ◌≡◌, refl, ◌∙◌, String, none, some, [], ◌∷◌, ◌==◌, true, arith, string_eq, All,
  if◌then◌else◌, leb,
}
use kubeadmiral.Base.Assoc.{
  Map, lookup, insert, erase, or_zero, total, total-insert, lookup-insert, lookup-erase,
  total-erase, total-erase_unique, erase-UniqueKeys, UniqueKeys,
}
use kubeadmiral.Planner.Scale.{add_counts, sub_counts}

abbrev pub at : Map String ℕ → String → ℕ
at m k = or_zero (lookup k m)

at-insert :
    (name k : String) (v : ℕ) (m : Map String ℕ)
    → at (insert name v m) k ≡ (if name == k then v else at m k)
at-insert name k v m = ground (arith, lookup-insert name k v m)

pub total-add_counts : (p m : Map String ℕ) → total (add_counts p m) ≡ total m + total p
unfolding add_counts
total-add_counts [] m = omega arith
total-add_counts ((k, n) ∷ p) m =
    omega (arith, total-add_counts p (insert k (at m k + n) m), total-insert k (at m k + n) m)

pub at-add_counts :
    (p m : Map String ℕ) (k : String) → UniqueKeys p → at (add_counts p m) k ≡ at m k + at p k
unfolding add_counts
at-add_counts [] m k u = omega arith
at-add_counts ((j, n) ∷ p) m k u =
    at-add_counts p (insert j (at m j + n) m) k u.1
    ∙ ground (arith, string_eq.reflects j k, at-insert j k (at m j + n) m, u.0)

pub le→leb : (a b : ℕ) → a ≤ b → leb a b ≡ true
le→leb a b h = ground arith

entries-at_cons :
    (k : String) (v : ℕ) (d rest : Map String ℕ)
    → lookup k rest ≡ none
    → All (λ e. at d e.0 ≡ e.1) rest
    → All (λ e. at ((k, v) ∷ d) e.0 ≡ e.1) rest
entries-at_cons k v d [] new h = tt
entries-at_cons k v d ((j, w) ∷ rest) new h = (
  ground (arith, h.0, new, string_eq.reflects j k, string_eq.reflects k j),
  entries-at_cons k v d rest (ground (arith, new)) h.1,
)

-- Each entry of a map is what a look-up finds.
pub entries-at : (d : Map String ℕ) → UniqueKeys d → All (λ e. at d e.0 ≡ e.1) d
entries-at [] u = tt
entries-at ((k, v) ∷ d) u =
    (ground (arith, string_eq.reflects k k), entries-at_cons k v d d u.0 (entries-at d u.1))

-- Where the counts fit, subtracting them is defined and exact.
pub sub_counts_lem :
    (p m : Map String ℕ)
    → UniqueKeys p
    → ((k : String) → at p k ≤ at m k)
    → (r : Map String ℕ) × (sub_counts p m ≡ some r)
      × (total r + total p ≡ total m)
      × ((k : String) → at r k + at p k ≡ at m k)
unfolding sub_counts
sub_counts_lem [] m u le = (m, refl, omega arith, λ k. omega arith)
sub_counts_lem ((j, n) ∷ p) m u le =
    let here : n ≤ at m j = ground (arith, le j, string_eq.reflects j j) in
    let left = at m j - n in
    let m' = insert j left m in
    let (r, e, t, f) =
      sub_counts_lem p m' u.1
        (λ k. ground (arith, le k, u.0, string_eq.reflects j k, at-insert j k left m)) in
    (
      r,
      rw (le→leb n (at m j) here) e,
      omega (arith, t, total-insert j left m),
      λ k. ground (arith, f k, at-insert j k left m, string_eq.reflects j k, u.0),
    )

-- The sum of what `m` has at the keys of `d`.
abbrev pub at_keys : (m d : Map String ℕ) → ℕ
at_keys m [] = 0
at_keys m ((k, v) ∷ d) = at m k + at_keys m d

at-erase :
    (name k : String) (m : Map String ℕ) → at (erase name m) k ≡ (if name == k then 0 else at m k)
at-erase name k m = ground (arith, lookup-erase name k m)

at_keys-erase :
    (k : String) (m d : Map String ℕ) → lookup k d ≡ none → at_keys (erase k m) d ≡ at_keys m d
at_keys-erase k m [] h = refl
at_keys-erase k m ((j, v) ∷ d) h =
    ground
      (arith, at-erase k j m, string_eq.reflects k j, string_eq.reflects j k, at_keys-erase k m d)

pub at_keys-le : (d m : Map String ℕ) → UniqueKeys d → at_keys m d ≤ total m
at_keys-le [] m u = omega arith
at_keys-le ((k, v) ∷ d) m u =
    omega (arith, at_keys-le d (erase k m) u.1, at_keys-erase k m d u.0, total-erase k m)

total-zero : (m : Map String ℕ) → UniqueKeys m → ((k : String) → at m k ≡ 0) → total m ≡ 0
total-zero [] u z = refl
total-zero ((j, w) ∷ m) u z =
    omega
      (arith, total-zero m u.1 (λ k. ground (arith, z k, string_eq.reflects j k, u.0)), head_zero)
  where
    head_zero : w ≡ 0
    head_zero = ground (arith, z j, string_eq.reflects j j)

-- `m` has nothing outside of the keys of `d`.
abbrev pub Covers : (d m : Map String ℕ) → Type 0
Covers d m = (k : String) → lookup k d ≡ none → at m k ≡ 0

pub at_keys-ge :
    (d m : Map String ℕ) → UniqueKeys d → UniqueKeys m → Covers d m → total m ≤ at_keys m d
at_keys-ge [] m ud um c = omega (arith, total-zero m um (λ k. c k refl))
at_keys-ge ((k, v) ∷ d) m ud um c = omega (
  arith,
  total-erase_unique k m um,
  at_keys-erase k m d ud.0,
  at_keys-ge d (erase k m) ud.1 (erase-UniqueKeys k m um)
      (λ j h. ground (arith, c j, at-erase k j m, string_eq.reflects k j)),
)
