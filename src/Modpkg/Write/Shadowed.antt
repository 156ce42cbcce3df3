-- ===== src/Modpkg/Write/Shadowed.antt =====
-- A chunk with the path of a chunk of the package itself is not written, and yet counted.
use league_mod.Prelude.{
  ℕ, ◌+◌, ◌^◌, ◌<◌, ◌≤◌, ◌≡◌, refl, sym, ap, ◌∙◌, inl, inr, Bool, true, false, not, List, [], ◌∷◌,
  ◌++◌, arith, length, length-append, select, All, nat_ord, pair_ord,
}
use mathlib.Core.List.{append-nil}
use league_mod.Prelude.Assoc.{In, is_some}
use league_mod.Prelude.HashSet.{contains}
use league_mod.Prelude.HashMap.{HashMap}
use league_mod.Prelude.Outcome.{Result, ok, >>=-eq-ok}
use league_mod.Overlay.Externals.{Externals}
use league_mod.Modpkg.Types.{ModpkgChunk}
use league_mod.Modpkg.Crates.{Crates}
use league_mod.Modpkg.Builder.{ModpkgBuilderError, ModpkgChunkBuilder, ModpkgBuilder}
use league_mod.Modpkg.Builder.Invariant.{IsBuilder, Synced}
use league_mod.Modpkg.Tables.{values, all_builders}
use league_mod.Modpkg.Write.{
  Indices, Contents, chunk_of, write_content, path_hashes, collect_regular_chunks,
  process_meta_chunks, process_chunks, process_all_chunks, indices_of, build_to_writer,
}
use league_mod.Modpkg.Write.Meta.{AreMeta, meta_contents, process_meta_chunks-WroteMeta}
use league_mod.Modpkg.Write.Regular.{length-sort_builders}
use league_mod.Modpkg.Write.Selected.{NamedIn, NamedIn-contains, All-meta, length-meta}
use league_mod.Modpkg.Write.Parts.{reserved}
use league_mod.Modpkg.Write.Entries.{length-values}
use league_mod.Modpkg.Write.Front.{HasCount, build_to_writer-HasCount}

length-select : {A : Type 0} (p : A → Bool) (xs : List A) → length (select p xs) ≤ length xs
length-select p [] = ground arith
length-select p (x ∷ xs) = ground (arith, length-select p xs)

length-select-lt :
    {A : Type 0} (p : A → Bool) (a : A) (xs : List A)
    → In a xs
    → p a ≡ false
    → length (select p xs) < length xs
length-select-lt p a [] i h = elim i [ ]
length-select-lt p a (x ∷ xs) (inl same) h =
    let failed : p x ≡ false = ap p (sym same) ∙ h in ground (arith, failed, length-select p xs)
length-select-lt p a (x ∷ xs) (inr i) h = ground (arith, length-select-lt p a xs i h)

select-none :
    {A : Type 0} (p : A → Bool) (xs ys : List A)
    → All (λ c. p c ≡ false) ys
    → select p (xs ++ ys) ≡ select p xs
select-none p [] [] a = refl
select-none p [] (y ∷ ys) a = rw (a.0) (select-none p [] ys a.1)
select-none p (x ∷ xs) ys a = ground (arith, select-none p xs ys a)

length-process_chunks :
    (x : Crates) (e : Externals) (provide : ModpkgChunkBuilder → Result ModpkgBuilderError (List ℕ))
    (indices : Indices) (chunks : List ModpkgChunkBuilder) (written : List ℕ) (contents : Contents)
    (all_written : List ℕ) (entries : List ModpkgChunk)
    → process_chunks x e provide indices chunks written contents ≡ ok (all_written, entries)
    → length entries ≡ length chunks
unfolding process_chunks
length-process_chunks x e provide indices [] written contents all_written entries h =
    ground (arith, h)
length-process_chunks x e provide indices (c ∷ chunks) written contents all_written entries h =
    let r = >>=-eq-ok (provide c) _ h in
    let s = >>=-eq-ok (write_content x e r.0 c.compression written contents) _ r.2 in
    let q = >>=-eq-ok (process_chunks x e provide indices chunks ((s.0).1).0 ((s.0).1).1) _ s.2 in
    let rest =
      length-process_chunks x e provide indices chunks ((s.0).1).0 ((s.0).1).1 (q.0).0 (q.0).1
        q.1 in
    let made : entries ≡ chunk_of e indices c r.0 (s.0).0 ∷ (q.0).1 = sym (cc (q.2)) in
    ap (length {A = ModpkgChunk}) made ∙ omega (arith, rest)

module _ (e : Externals) where
  -- Of the chunks, one with a path of the package itself is left out.
  fewer_regular :
      (x : Crates) (at : ℕ) (path_indices : HashMap ℕ ℕ) (b : ModpkgBuilder)
      (c : ModpkgChunkBuilder) (bytes metadata : List ℕ) (meta : List ModpkgChunk)
      → Synced e b.meta_chunks (is_some b.thumbnail) (is_some b.readme)
      → AreMeta x e at path_indices bytes (meta_contents b metadata) meta
      → In c (values b.chunks)
      → NamedIn e b c.path_hash
      → length (collect_regular_chunks b meta) < length b.chunks
  unfolding collect_regular_chunks all_builders
  fewer_regular x at path_indices b c bytes metadata meta synced are i n =
      let p : ModpkgChunkBuilder → Bool = λ d. not (contains d.path_hash (path_hashes meta)) in
      let known : (h : ℕ) → NamedIn e b h → contains h (path_hashes meta) ≡ true =
        NamedIn-contains e x at path_indices b bytes metadata meta are in
      let left : p c ≡ false = rw (known c.path_hash n) refl in
      let none_of_meta = All-meta e b (path_hashes meta) b.meta_chunks known synced.named in
      let sorted = length-sort_builders (select p (values b.chunks ++ values b.meta_chunks)) in
      let same =
        ap (length {A = ModpkgChunkBuilder})
          (select-none p (values b.chunks) (values b.meta_chunks) none_of_meta) in
      let fewer = length-select-lt p c (values b.chunks) i left in
      omega (arith, sorted, same, fewer, length-values b.chunks)

fewer_entries :
    (x : Crates) (e : Externals) (provide : ModpkgChunkBuilder → Result ModpkgBuilderError (List ℕ))
    (b : ModpkgBuilder) (c : ModpkgChunkBuilder) (written : List ℕ) (entries : List ModpkgChunk)
    → IsBuilder e b
    → In c (values b.chunks)
    → NamedIn e b c.path_hash
    → process_all_chunks x e provide b (indices_of e b) (reserved e b) ≡ ok (written, entries)
    → length entries < length b.chunks + length b.meta_chunks
unfolding process_all_chunks
fewer_entries x e provide b c written entries v i n h =
    let m = >>=-eq-ok (process_meta_chunks x e b (indices_of e b).paths (reserved e b)) _ h in
    let wrote =
      process_meta_chunks-WroteMeta x e (length (reserved e b)) (indices_of e b).paths
        (reserved e b) refl b [] (m.0).0 (m.0).1
        (ap (process_meta_chunks x e b (indices_of e b).paths) (append-nil (reserved e b)) ∙ m.1) in
    let are = (wrote.2).are_meta in
    let r =
      >>=-eq-ok
        (process_chunks x e provide (indices_of e b) (collect_regular_chunks b (m.0).1) (m.0).0 [])
        _ m.2 in
    let regular =
      length-process_chunks x e provide (indices_of e b) (collect_regular_chunks b (m.0).1) (m.0).0
        [] (r.0).0 (r.0).1 r.1 in
    let fewer =
      fewer_regular e x (length (reserved e b)) (indices_of e b).paths b c (wrote.2).more wrote.0
        (m.0).1 v.synced are i n in
    let meta =
      length-meta e x (length (reserved e b)) (indices_of e b).paths b v.synced (wrote.2).more
        wrote.0 (m.0).1 are in
    let made : entries ≡ (m.0).1 ++ (r.0).1 = sym (cc (r.2)) in
    omega (
      arith,
      ap (length {A = ModpkgChunk}) made,
      length-append (m.0).1 (r.0).1,
      regular,
      fewer,
      meta,
    )

-- If a builder made as in `IsMade-IsBuilder` has a chunk with the path hash of one of the package's
-- own chunks and fewer than 2 ^ 32 chunks in all, and the build succeeds: the count that
-- `mount_from_reader` reads from the header of the file is greater than the number of entries in
-- the chunk table that was written.
pub shadowed_chunk_counted :
    (x : Crates) (e : Externals) (provide : ModpkgChunkBuilder → Result ModpkgBuilderError (List ℕ))
    (b : ModpkgBuilder) (c : ModpkgChunkBuilder) (file : List ℕ)
    → IsBuilder e b
    → In c (values b.chunks)
    → NamedIn e b c.path_hash
    → length b.chunks + length b.meta_chunks < 2 ^ 32
    → build_to_writer x e provide b ≡ ok file
    → (count : ℕ) × (entries : List ModpkgChunk) × HasCount x e provide b file count entries
      × (length entries < count)
shadowed_chunk_counted x e provide b c file v i n few h =
    let (entries, counted) = build_to_writer-HasCount x e provide b file few h in
    (
      length b.chunks + length b.meta_chunks,
      entries,
      counted,
      fewer_entries x e provide b c counted.written entries v i n counted.processed,
    )
