-- ===== src/Overlay/WadBuilder/Ordered.antt =====
-- The order of the chunks of a patched WAD.
use league_mod.Prelude.{
  ℕ, ◌<◌, ◌≡◌, refl, sym, subst, ◌∙◌, inl, inr, Bool-cases, eq→≡, Bool, true, false, not, ◌&&◌,
  ◌||◌, List, [], ◌∷◌, arith, ltb, All, select, ◌==◌, eq_iff, nat_ord,
}
use league_mod.Prelude.HashSet.{contains, Distinct}
use league_mod.Overlay.WadBuilder.{
  WadChunk, hashes_of, insert_hash, sort_hashes, new_hashes, insert_all, ordered_hashes,
}

-- Strictly ascending: sorted, and none twice.
abbrev pub IsAscending : List ℕ → Type 0
IsAscending [] = Unit {0}
IsAscending (h ∷ hashes) = All (λ o. h < o) hashes × IsAscending hashes

contains-insert_hash :
    (h g : ℕ) (ordered : List ℕ)
    → contains g (insert_hash h ordered) ≡ (h == g) || contains g ordered
unfolding insert_hash
contains-insert_hash h g [] = ground arith
contains-insert_hash h g (o ∷ ordered) = ground (arith, contains-insert_hash h g ordered)

All-insert_hash :
    (b h : ℕ) (ordered : List ℕ)
    → b < h
    → All (λ o. b < o) ordered
    → All (λ o. b < o) (insert_hash h ordered)
unfolding insert_hash
All-insert_hash b h [] l a = (l, tt)
All-insert_hash b h (o ∷ ordered) l a = ground (arith, l, a, All-insert_hash b h ordered l a.1)

All-trans :
    (a b : ℕ) (ordered : List ℕ) → a < b → All (λ o. b < o) ordered → All (λ o. a < o) ordered
All-trans a b [] l all = tt
All-trans a b (o ∷ ordered) l all = (omega (arith, l, all.0), All-trans a b ordered l all.1)

insert_hash-IsAscending :
    (h : ℕ) (ordered : List ℕ)
    → contains h ordered ≡ false
    → IsAscending ordered
    → IsAscending (insert_hash h ordered)
unfolding insert_hash
insert_hash-IsAscending h [] n a = (tt, tt)
insert_hash-IsAscending h (o ∷ ordered) n a = elim (Bool-cases (ltb o h)) [
  | inl less ↦
      let rest = insert_hash-IsAscending h ordered (ground (arith, n)) a.1 in
      rw less (All-insert_hash o h ordered (ground (arith, less)) a.0, rest)
  | inr not_less ↦
      let more : h < o = ground (arith, n, not_less, eq_iff o h) in
      rw not_less ((more, All-trans h o ordered more a.0), a)
]

contains-sort_hashes :
    (g : ℕ) (hashes : List ℕ) → contains g (sort_hashes hashes) ≡ contains g hashes
unfolding sort_hashes
contains-sort_hashes g [] = refl
contains-sort_hashes g (h ∷ hashes) =
    contains-insert_hash h g (sort_hashes hashes) ∙ ground (arith, contains-sort_hashes g hashes)

sort_hashes-IsAscending : (hashes : List ℕ) → Distinct hashes → IsAscending (sort_hashes hashes)
unfolding sort_hashes
sort_hashes-IsAscending [] d = tt
sort_hashes-IsAscending (h ∷ hashes) d =
    insert_hash-IsAscending h (sort_hashes hashes) (contains-sort_hashes h hashes ∙ d.0)
      (sort_hashes-IsAscending hashes d.1)

contains-insert_all :
    (g : ℕ) (hashes ordered : List ℕ)
    → contains g (insert_all hashes ordered) ≡ contains g hashes || contains g ordered
unfolding insert_all
contains-insert_all g [] ordered = refl
contains-insert_all g (h ∷ hashes) ordered =
    contains-insert_all g hashes (insert_hash h ordered)
    ∙ ground (arith, contains-insert_hash h g ordered)

-- None of the hashes is there yet.
abbrev AreNew : List ℕ → List ℕ → Type 0
AreNew hashes ordered = All (λ h. contains h ordered ≡ false) hashes

AreNew-insert_hash :
    (h : ℕ) (hashes ordered : List ℕ)
    → All (λ o. h < o) hashes
    → AreNew hashes ordered
    → AreNew hashes (insert_hash h ordered)
AreNew-insert_hash h [] ordered a n = tt
AreNew-insert_hash h (g ∷ hashes) ordered a n = (
  contains-insert_hash h g ordered ∙ ground (arith, eq_iff h g, a, n),
  AreNew-insert_hash h hashes ordered a.1 n.1,
)

insert_all-IsAscending :
    (hashes ordered : List ℕ)
    → IsAscending hashes
    → AreNew hashes ordered
    → IsAscending ordered
    → IsAscending (insert_all hashes ordered)
unfolding insert_all
insert_all-IsAscending [] ordered s n a = a
insert_all-IsAscending (h ∷ hashes) ordered s n a =
    insert_all-IsAscending hashes (insert_hash h ordered) s.1
      (AreNew-insert_hash h hashes ordered s.0 n.1) (insert_hash-IsAscending h ordered n.0 a)

contains-select :
    (p : ℕ → Bool) (g : ℕ) (hashes : List ℕ)
    → contains g (select p hashes) ≡ contains g hashes && p g
contains-select p g [] = refl
contains-select p g (h ∷ hashes) = elim (Bool-cases (h == g)) [
  | inl same ↦
      let is_g : h ≡ g = eq→≡ h g same in
      subst (λ k. contains g (select p (k ∷ hashes)) ≡ contains g (k ∷ hashes) && p g) (sym is_g)
        (ground (arith, eq_iff g g, contains-select p g hashes))
  | inr differs ↦ ground (arith, differs, contains-select p g hashes)
]

select-Distinct : (p : ℕ → Bool) (hashes : List ℕ) → Distinct hashes → Distinct (select p hashes)
select-Distinct p [] d = tt
select-Distinct p (h ∷ hashes) d =
    ground (arith, d, contains-select p h hashes, select-Distinct p hashes d.1)

All-contains :
    (P : ℕ → Type 0) (hashes : List ℕ) → ((h : ℕ) → contains h hashes ≡ true → P h) → All P hashes
All-contains P [] f = tt
All-contains P (h ∷ hashes) f =
    (f h (ground (arith, eq_iff h h)), All-contains P hashes (λ g c. f g (ground (arith, c))))

new_hashes-AreNew :
    (override_hashes : List ℕ) (chunks : List WadChunk)
    → AreNew (new_hashes override_hashes chunks) (hashes_of chunks)
unfolding new_hashes
new_hashes-AreNew override_hashes chunks =
    let p : ℕ → Bool = λ h. not (contains h (hashes_of chunks)) in
    All-contains (λ h. contains h (hashes_of chunks) ≡ false)
      (sort_hashes (select p override_hashes))
      (λ h c. ground (
        arith,
        c,
        contains-sort_hashes h (select p override_hashes),
        contains-select p h override_hashes,
      ))

-- ordered
pub ordered_hashes-IsAscending :
    (override_hashes : List ℕ) (chunks : List WadChunk)
    → Distinct override_hashes
    → IsAscending (hashes_of chunks)
    → IsAscending (ordered_hashes override_hashes chunks)
      × ((h : ℕ)
          → contains h (ordered_hashes override_hashes chunks)
            ≡ contains h override_hashes || contains h (hashes_of chunks))
unfolding ordered_hashes new_hashes
ordered_hashes-IsAscending override_hashes chunks d a =
    let p : ℕ → Bool = λ h. not (contains h (hashes_of chunks)) in
    let news : List ℕ = select p override_hashes in
    (
      insert_all-IsAscending (sort_hashes news) (hashes_of chunks)
          (sort_hashes-IsAscending news (select-Distinct p override_hashes d))
          (new_hashes-AreNew override_hashes chunks) a,
      λ h.
          contains-insert_all h (sort_hashes news) (hashes_of chunks)
          ∙ ground (arith, contains-sort_hashes h news, contains-select p h override_hashes),
    )
