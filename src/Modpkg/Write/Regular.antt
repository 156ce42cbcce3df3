-- ===== src/Modpkg/Write/Regular.antt =====
-- Which chunks `collect_regular_chunks` takes: all but the package's own.
use league_mod.Prelude.{
  suc, ◌≡◌, refl, ◌∙◌, inl, inr, List, [], ◌∷◌, arith, length, nat_ord, list_ord,
}
use league_mod.Prelude.Assoc.{In}
use league_mod.Modpkg.Builder.{ModpkgChunkBuilder}
use league_mod.Modpkg.Write.{insert_builder, sort_builders}

In-insert_builder :
    (c d : ModpkgChunkBuilder) (chunks : List ModpkgChunkBuilder)
    → In c (insert_builder d chunks)
    → In c (d ∷ chunks)
unfolding insert_builder
In-insert_builder c d [] h = h
In-insert_builder c d (a ∷ chunks) h = ground (arith, In-insert_builder c d chunks)

insert_builder-In :
    (c d : ModpkgChunkBuilder) (chunks : List ModpkgChunkBuilder)
    → In c (d ∷ chunks)
    → In c (insert_builder d chunks)
unfolding insert_builder
insert_builder-In c d [] h = h
insert_builder-In c d (a ∷ chunks) h = ground (arith, insert_builder-In c d chunks)

length-insert_builder :
    (d : ModpkgChunkBuilder) (chunks : List ModpkgChunkBuilder)
    → length (insert_builder d chunks) ≡ suc (length chunks)
unfolding insert_builder
length-insert_builder d [] = refl
length-insert_builder d (a ∷ chunks) = ground (arith, length-insert_builder d chunks)

-- Sorting keeps the elements and their number.
pub In-sort_builders :
    (c : ModpkgChunkBuilder) (chunks : List ModpkgChunkBuilder)
    → In c (sort_builders chunks)
    → In c chunks
unfolding sort_builders
In-sort_builders c [] h = h
In-sort_builders c (d ∷ chunks) h = elim (In-insert_builder c d (sort_builders chunks) h) [
  | inl e ↦ inl e
  | inr i ↦ inr (In-sort_builders c chunks i)
]

pub sort_builders-In :
    (c : ModpkgChunkBuilder) (chunks : List ModpkgChunkBuilder)
    → In c chunks
    → In c (sort_builders chunks)
unfolding sort_builders
sort_builders-In c [] h = h
sort_builders-In c (d ∷ chunks) (inl e) = insert_builder-In c d (sort_builders chunks) (inl e)
sort_builders-In c (d ∷ chunks) (inr i) =
    insert_builder-In c d (sort_builders chunks) (inr (sort_builders-In c chunks i))

pub length-sort_builders :
    (chunks : List ModpkgChunkBuilder) → length (sort_builders chunks) ≡ length chunks
unfolding sort_builders
length-sort_builders [] = refl
length-sort_builders (d ∷ chunks) =
    length-insert_builder d (sort_builders chunks) ∙ omega (arith, length-sort_builders chunks)
