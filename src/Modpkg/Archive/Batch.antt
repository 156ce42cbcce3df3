-- ===== src/Modpkg/Archive/Batch.antt =====
-- What `load_chunks_batch` loads, in the order of the offsets.
use league_mod.Prelude.{
  ℕ, ◌≡◌, refl, sym, ap, subst, ◌∙◌, inl, inr, Option, none, some, List, [], ◌∷◌, arith, nat_ord,
  pair_ord,
}
use league_mod.Prelude.Assoc.{In, get}
use league_mod.Prelude.HashMap.{HashMap}
use league_mod.Prelude.Outcome.{ok, >>=-eq-ok}
use league_mod.Modpkg.Types.{ModpkgChunk}
use league_mod.Modpkg.Crates.{Crates}
use league_mod.Modpkg.Archive.{
  Key, Modpkg, insert_by_offset, sort_by_offset, found, load_all, load_chunk_decompressed,
  load_chunks_batch, load_chunk_decompressed_by_hash,
}

In-insert_by_offset :
    (a b : Key × ModpkgChunk) (entries : List (Key × ModpkgChunk))
    → In a (insert_by_offset b entries)
    → In a (b ∷ entries)
unfolding insert_by_offset
In-insert_by_offset a b [] h = h
In-insert_by_offset a b (c ∷ entries) h = ground (arith, In-insert_by_offset a b entries)

In-sort_by_offset :
    (a : Key × ModpkgChunk) (entries : List (Key × ModpkgChunk))
    → In a (sort_by_offset entries)
    → In a entries
unfolding sort_by_offset
In-sort_by_offset a [] h = h
In-sort_by_offset a (b ∷ entries) h = elim (In-insert_by_offset a b (sort_by_offset entries) h) [
  | inl same ↦ inl same
  | inr i ↦ inr (In-sort_by_offset a entries i)
]

-- The chunk of one key, and what the keys after it give.
found_step :
    (k j : Key) (c : ModpkgChunk) (chunks : HashMap Key ModpkgChunk) (keys : List Key)
    (o : Option ModpkgChunk)
    → get j chunks ≡ o
    → (In (k, c) (found chunks keys) → In k keys × (get k chunks ≡ some c))
    → In (k, c) (elim o [ none ↦ found chunks keys | some chunk ↦ (j, chunk) ∷ found chunks keys ])
    → In k (j ∷ keys) × (get k chunks ≡ some c)
found_step k j c chunks keys none at rest i = let r = rest i in (inr r.0, r.1)
found_step k j c chunks keys (some d) at rest (inl same) =
    let is_j : k ≡ j = ap (λ (p : Key × ModpkgChunk). p.0) same in
    let is_d : c ≡ d = ap (λ (p : Key × ModpkgChunk). p.1) same in
    (inl is_j, ap (λ n. get n chunks) is_j ∙ at ∙ ap some (sym is_d))
found_step k j c chunks keys (some d) at rest (inr i) = let r = rest i in (inr r.0, r.1)

In-found :
    (k : Key) (c : ModpkgChunk) (chunks : HashMap Key ModpkgChunk) (keys : List Key)
    → In (k, c) (found chunks keys)
    → In k keys × (get k chunks ≡ some c)
unfolding found
In-found k c chunks [] h = elim h [ ]
In-found k c chunks (j ∷ keys) h =
    found_step k j c chunks keys (get j chunks) refl (In-found k c chunks keys) h

In-load_all :
    (x : Crates) (source : List ℕ) (entries : List (Key × ModpkgChunk))
    (batch : List (Key × List ℕ)) (k : Key) (bytes : List ℕ)
    → load_all x source entries ≡ ok batch
    → In (k, bytes) batch
    → (c : ModpkgChunk) × In (k, c) entries × (load_chunk_decompressed x source c ≡ ok bytes)
unfolding load_all
In-load_all x source [] batch k bytes h i =
    let none_there : [] ≡ batch = cc in absurd (subst (In (k, bytes)) (sym none_there) i)
In-load_all x source ((j, c) ∷ entries) batch k bytes h i =
    let r = >>=-eq-ok (load_chunk_decompressed x source c) _ h in
    let q = >>=-eq-ok (load_all x source entries) _ r.2 in
    let made : (j, r.0) ∷ q.0 ≡ batch = cc (q.2) in
    elim (subst (In (k, bytes)) (sym made) i) [
      | inl same ↦ (
        c,
        inl (ap (λ (p : Key × List ℕ). (p.0, c)) same),
        r.1 ∙ ap ok (sym (ap (λ (p : Key × List ℕ). p.1) same)),
      )
      | inr later ↦
          let more = In-load_all x source entries q.0 k bytes q.1 later in
          (more.0, inr more.1, more.2)
    ]

-- Each loaded chunk is one of the keys', and loads alone as the same bytes.
pub In-load_chunks_batch :
    (x : Crates) (m : Modpkg) (keys : List Key) (batch : List (Key × List ℕ)) (k : Key)
    (bytes : List ℕ)
    → load_chunks_batch x m keys ≡ ok batch
    → In (k, bytes) batch
    → In k keys × (load_chunk_decompressed_by_hash x m k ≡ ok bytes)
unfolding load_chunks_batch load_chunk_decompressed_by_hash
In-load_chunks_batch x m keys batch k bytes h i =
    let r = In-load_all x m.source (sort_by_offset (found m.chunks keys)) batch k bytes h i in
    let f = In-found k r.0 m.chunks keys (In-sort_by_offset (k, r.0) (found m.chunks keys) r.1) in
    (f.0, rw (f.1) r.2)
