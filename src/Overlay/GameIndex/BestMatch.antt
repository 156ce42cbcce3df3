-- ===== src/Overlay/GameIndex/BestMatch.antt =====
-- `find_best_matching_wad` finds the WAD that holds the most of the hashes.
use league_mod.Prelude.{
  ℕ, ◌+◌, ◌<◌, ◌≡◌, refl, sym, ap, ◌∙◌, ◌≢◌, ◌⊎◌, inl, inr, none, some, List, [], ◌∷◌, arith, All,
  subst, ◌↔◌, if◌then◌else◌, ◌==◌, eq_iff, nat_ord, list_ord, Ordering, cmp_list, list_eq,
  list_trans, list_refl, list_flip, Option-cases,
}
use league_mod.Prelude.Assoc.{get, Distinct, In, get_of_In, In-of_get, All_of_In}
use league_mod.Prelude.HashMap.{HashMap, get-insert, insert-Distinct}
use league_mod.Overlay.FilePath.{FilePath}
use league_mod.Overlay.GameIndex.{
  GameIndex, or_zero, or_nil, bump, bump_all, count_overlaps, cmp_overlap, later, max_from, max_by,
  find_best_matching_wad,
}

-- How often a WAD stands in a list.
abbrev pub times : FilePath → List FilePath → ℕ
times w [] = 0
times w (v ∷ vs) = (if v == w then 1 else 0) + times w vs

-- How many of the hashes a WAD holds: what overlap detection goes by.
abbrev pub overlap : GameIndex → List ℕ → FilePath → ℕ
overlap g [] w = 0
overlap g (h ∷ hs) w = times w (or_nil (get h g.hash_index)) + overlap g hs w

get-bump :
    (v w : FilePath) (counts : HashMap FilePath ℕ)
    → or_zero (get w (bump v counts)) ≡ or_zero (get w counts) + (if v == w then 1 else 0)
unfolding bump
get-bump v w counts =
    ap or_zero (get-insert v w (or_zero (get v counts) + 1) counts) ∙ ground (arith, eq_iff v w)

get-bump_all :
    (vs : List FilePath) (w : FilePath) (counts : HashMap FilePath ℕ)
    → or_zero (get w (bump_all vs counts)) ≡ or_zero (get w counts) + times w vs
unfolding bump_all
get-bump_all [] w counts = omega arith
get-bump_all (v ∷ vs) w counts =
    omega (arith, get-bump_all vs w (bump v counts), get-bump v w counts)

get-count_overlaps :
    (g : GameIndex) (hs : List ℕ) (w : FilePath) (counts : HashMap FilePath ℕ)
    → or_zero (get w (count_overlaps g hs counts)) ≡ or_zero (get w counts) + overlap g hs w
unfolding count_overlaps
get-count_overlaps g [] w counts = omega arith
get-count_overlaps g (h ∷ hs) w counts =
    let wads = or_nil (get h g.hash_index) in
    omega (arith, get-count_overlaps g hs w (bump_all wads counts), get-bump_all wads w counts)

-- Every count of the map is positive, and no path stands in it twice.
record IsCounting (counts : HashMap FilePath ℕ) : Type 0 where
  distinct : Distinct counts
  positive : (w : FilePath) → get w counts ≢ some 0

bump-IsCounting :
    (v : FilePath) (counts : HashMap FilePath ℕ) → IsCounting counts → IsCounting (bump v counts)
unfolding bump
bump-IsCounting v counts c = record {
  distinct = insert-Distinct v _ counts c.distinct;
  positive =
      λ w. rw (get-insert v w (or_zero (get v counts) + 1) counts) (ground (arith, c.positive w));
}

bump_all-IsCounting :
    (vs : List FilePath) (counts : HashMap FilePath ℕ)
    → IsCounting counts
    → IsCounting (bump_all vs counts)
unfolding bump_all
bump_all-IsCounting [] counts c = c
bump_all-IsCounting (v ∷ vs) counts c = bump_all-IsCounting vs _ (bump-IsCounting v counts c)

count_overlaps-IsCounting :
    (g : GameIndex) (hs : List ℕ) (counts : HashMap FilePath ℕ)
    → IsCounting counts
    → IsCounting (count_overlaps g hs counts)
unfolding count_overlaps
count_overlaps-IsCounting g [] counts c = c
count_overlaps-IsCounting g (h ∷ hs) counts c =
    count_overlaps-IsCounting g hs _ (bump_all-IsCounting (or_nil (get h g.hash_index)) counts c)

-- `x` does not beat `y`: it has fewer hashes, or as many and not the smaller path.
abbrev pub AtMost : FilePath × ℕ → FilePath × ℕ → Type 0
AtMost x y = (x.1 < y.1) ⊎ ((x.1 ≡ y.1) × (cmp_list y.0 x.0 ≢ Ordering.gt))

AtMost-refl : (x : FilePath × ℕ) → AtMost x x
AtMost-refl (p, n) = inr (refl, λ e. cc (list_refl p))

AtMost-trans : (x y z : FilePath × ℕ) → AtMost x y → AtMost y z → AtMost x z
AtMost-trans (p, n) (q, m) (r, k) h j = ground (arith, list_trans r q p, list_eq r q, list_eq q p)

AtMost-later : (a b : FilePath × ℕ) → AtMost a (later a b) × AtMost b (later a b)
unfolding later cmp_overlap
AtMost-later (p, n) (q, m) = ground (arith, list_refl p, list_refl q, list_flip q p, list_flip p q)

max_from-AtMost :
    (a : FilePath × ℕ) (counts : HashMap FilePath ℕ)
    → AtMost a (max_from a counts) × All (λ x. AtMost x (max_from a counts)) counts
unfolding max_from
max_from-AtMost a [] = (AtMost-refl a, tt)
max_from-AtMost a (b ∷ counts) =
    let (first, rest) = max_from-AtMost (later a b) counts in
    let (left, right) = AtMost-later a b in
    (AtMost-trans a (later a b) _ left first, (AtMost-trans b (later a b) _ right first, rest))

max_from-In : (a : FilePath × ℕ) (counts : HashMap FilePath ℕ) → In (max_from a counts) (a ∷ counts)
unfolding max_from later
max_from-In a [] = inl refl
max_from-In a (b ∷ counts) = ground (arith, max_from-In (later a b) counts)

-- No WAD holds more of the hashes than `w`, and none with a smaller path holds as many.
abbrev pub IsBest : GameIndex → List ℕ → FilePath → Type 0
IsBest g hs w =
    (0 < overlap g hs w) × ((v : FilePath) → AtMost (v, overlap g hs v) (w, overlap g hs w))

IsBest-entry :
    (g : GameIndex) (hs : List ℕ) (counts : HashMap FilePath ℕ) (w : FilePath) (n : ℕ)
    → IsCounting counts
    → ((v : FilePath) → or_zero (get v counts) ≡ overlap g hs v)
    → In (w, n) counts
    → All (λ x. AtMost x (w, n)) counts
    → IsBest g hs w
IsBest-entry g hs counts w n c total i top = (ground (arith, total w, at_w, c.positive w), below)
  where
    at_w : get w counts ≡ some n
    at_w = get_of_In w n counts c.distinct i

    below : (v : FilePath) → AtMost (v, overlap g hs v) (w, overlap g hs w)
    below v = elim (Option-cases (get v counts)) [
      | inl e ↦ ground (arith, e, at_w, total v, total w, c.positive w)
      | inr (k, e) ↦
          ground (arith, e, at_w, total v, total w, All_of_In _ counts top (In-of_get v k counts e))
    ]

IsBest-of :
    (g : GameIndex) (hs : List ℕ) (counts : HashMap FilePath ℕ) (w : FilePath)
    → IsCounting counts
    → ((v : FilePath) → or_zero (get v counts) ≡ overlap g hs v)
    → max_by counts ≡ some w
    → IsBest g hs w
unfolding max_by
IsBest-of g hs [] w c total e = cc
IsBest-of g hs (a ∷ counts) w c total e =
    let top : (max_from a counts).0 ≡ w = cc in
    subst (IsBest g hs) top
      (IsBest-entry g hs (a ∷ counts) _ _ c total (max_from-In a counts) (max_from-AtMost a counts))

count_total :
    (g : GameIndex) (hs : List ℕ) (v : FilePath)
    → or_zero (get v (count_overlaps g hs [])) ≡ overlap g hs v
count_total g hs v = omega (arith, get-count_overlaps g hs v [])

-- If overlap detection answers a WAD, that WAD holds some of the hashes, no WAD holds more of them,
-- and none with a smaller path holds as many.
pub find_best_matching_wad-IsBest :
    (g : GameIndex) (hs : List ℕ) (w : FilePath)
    → find_best_matching_wad g hs ≡ some w
    → IsBest g hs w
unfolding find_best_matching_wad
find_best_matching_wad-IsBest g hs w e =
    IsBest-of g hs (count_overlaps g hs []) w
      (count_overlaps-IsCounting g hs [] (record { distinct = tt; positive = λ v p. cc }))
      (count_total g hs) e

none_counted :
    (counts : HashMap FilePath ℕ) (v : FilePath) → max_by counts ≡ none → or_zero (get v counts) ≡ 0
unfolding max_by
none_counted [] v e = refl
none_counted (a ∷ counts) v e = cc

-- Overlap detection answers no WAD exactly when no WAD holds one of the hashes.
pub find_best-eq-none_iff :
    (g : GameIndex) (hs : List ℕ)
    → (find_best_matching_wad g hs ≡ none) ↔ ((v : FilePath) → overlap g hs v ≡ 0)
find_best-eq-none_iff g hs = (
  λ e v. sym (count_total g hs v) ∙ unfold find_best_matching_wad in none_counted _ v e,
  λ zero_everywhere. elim (Option-cases (find_best_matching_wad g hs)) [
    | inl e ↦ e
    | inr (w, e) ↦
        absurd (omega (arith, (find_best_matching_wad-IsBest g hs w e).0, zero_everywhere w))
  ],
)

best_unique :
    (g : GameIndex) (hs ks : List ℕ) (w v : FilePath)
    → ((u : FilePath) → overlap g hs u ≡ overlap g ks u)
    → IsBest g hs w
    → IsBest g ks v
    → w ≡ v
best_unique g hs ks w v same bw bv =
    ground (
      arith,
      bw.1 v,
      bv.1 w,
      same v,
      same w,
      list_trans w v w,
      list_refl w,
      list_eq w v,
      list_eq v w,
    )

-- Two lists of hashes of which every WAD holds as many get one answer of overlap detection,
-- whatever the order in which the hashes stand and the counts are iterated.
pub find_best_order_free :
    (g : GameIndex) (hs ks : List ℕ)
    → ((v : FilePath) → overlap g hs v ≡ overlap g ks v)
    → find_best_matching_wad g hs ≡ find_best_matching_wad g ks
find_best_order_free g hs ks same = elim (Option-cases (find_best_matching_wad g hs)) [
  | inl e ↦
      e
      ∙ sym
          ((find_best-eq-none_iff g ks).1 (λ v. sym (same v) ∙ (find_best-eq-none_iff g hs).0 e v))
  | inr (w, e) ↦ elim (Option-cases (find_best_matching_wad g ks)) [
    | inl f ↦ absurd (
        omega (
          arith,
          (find_best_matching_wad-IsBest g hs w e).0,
          same w,
          (find_best-eq-none_iff g ks).0 f w,
        ))
    | inr (v, f) ↦ cc (
      e,
      f,
      best_unique g hs ks w v same (find_best_matching_wad-IsBest g hs w e)
          (find_best_matching_wad-IsBest g ks v f),
    )
  ]
]
