-- ===== src/Overlay/Sorted.antt =====
-- `sort` and `dedup` of lists of texts, and `BTreeSet<String>`.
use league_mod.Prelude.{
  List, [], ◌∷◌, Text, Ordering, if◌then◌else◌, ◌==◌, cmp_list, nat_ord, list_ord,
}

insert_text : Text → List Text → List Text
insert_text t [] = t ∷ []
insert_text t (u ∷ us) =
    let rest = insert_text t us in elim (cmp_list t u) [ Ordering.gt ↦ u ∷ rest | _ ↦ t ∷ u ∷ us ]

-- `sort`
unfoldable pub sort : List Text → List Text
unfolding insert_text
sort [] = []
sort (t ∷ ts) = insert_text t (sort ts)

dedup_from : Text → List Text → List Text
dedup_from t [] = t ∷ []
dedup_from t (u ∷ us) = let rest = dedup_from u us in if t == u then rest else t ∷ rest

-- `dedup`
unfoldable pub dedup : List Text → List Text
unfolding dedup_from
dedup [] = []
dedup (t ∷ ts) = dedup_from t ts

-- `BTreeSet::insert`
unfoldable pub insert_sorted : Text → List Text → List Text
insert_sorted t [] = t ∷ []
insert_sorted t (u ∷ us) =
    let rest = insert_sorted t us in
    elim (cmp_list t u) [ Ordering.lt ↦ t ∷ u ∷ us | Ordering.eq ↦ u ∷ us | Ordering.gt ↦ u ∷ rest ]
