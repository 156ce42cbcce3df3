-- ===== src/Modpkg/Write/Bounds.antt =====
-- Where the data of the chunks of a package stand that was built.
use league_mod.Prelude.{
  ℕ, ◌+◌, ◌^◌, ◌<◌, ◌≤◌, ◌≡◌, sym, subst, inl, inr, some, List, [], Text, arith, length, nat_ord,
  pair_ord,
}
use league_mod.Prelude.Assoc.{In, get}
use league_mod.Prelude.HashMap.{HashMap}
use league_mod.Prelude.Outcome.{Result, ok}
use league_mod.Overlay.Externals.{Externals}
use league_mod.Modpkg.Types.{ModpkgChunk}
use league_mod.Modpkg.Crates.{Crates}
use league_mod.Modpkg.Archive.{Key, Modpkg}
use league_mod.Modpkg.Builder.{ModpkgBuilderError, ModpkgChunkBuilder, ModpkgBuilder}
use league_mod.Modpkg.Mount.{mount_from_reader}
use league_mod.Modpkg.Mount.Fields.{layer_hashes}
use league_mod.Modpkg.Mount.Layout.{package_of}
use league_mod.Modpkg.Write.{indices_of, chunk_of, build_to_writer}
use league_mod.Modpkg.Write.Stored.{Keeps}
use league_mod.Modpkg.Write.Meta.{AreMeta, data_of}
use league_mod.Modpkg.Write.Placed.{Holds-bound}
use league_mod.Modpkg.Write.Parts.{reserved, Parts}
use league_mod.Modpkg.Write.Entries.{In-append, In-Processed}
use league_mod.Modpkg.Write.Written.{layout_of}
use league_mod.Modpkg.Write.Loading.{add_chunks_found}
use league_mod.Modpkg.Write.RoundTrip.{IsBuildable, build-IsBuilt}

module _ (x : Crates) (e : Externals) where
  -- The data of an entry stand between two places.
  abbrev pub Within : ℕ → ℕ → ModpkgChunk → Type 0
  Within lo hi n = (lo ≤ n.data_offset) × (n.data_offset + n.compressed_size ≤ hi)

  Keeps-Within :
      (base : ℕ) (bytes raw : List ℕ) (n : ModpkgChunk)
      → Keeps x e base bytes raw (data_of n)
      → Within base (base + length bytes) n
  Keeps-Within base bytes raw n k = (
    omega (arith, k.holds.offset_is),
    omega (arith, Holds-bound base bytes n.data_offset k.stored k.holds, k.size_is),
  )

  meta-Within :
      (base : ℕ) (path_indices : HashMap ℕ ℕ) {bytes : List ℕ} {contents : List (Text × List ℕ)}
      {chunks : List ModpkgChunk} (n : ModpkgChunk)
      → AreMeta x e base path_indices bytes contents chunks
      → In n chunks
      → Within base (base + length bytes) n
  meta-Within base path_indices n AreMeta.nil i = elim i [ ]
  meta-Within base path_indices {bytes} n (AreMeta.cons {path} {raw} {c} m rest) (inl same) =
      subst (Within base (base + length bytes)) (sym same) (Keeps-Within base bytes raw c m.keeps)
  meta-Within base path_indices n (AreMeta.cons m rest) (inr i) =
      meta-Within base path_indices n rest i

module _ (x : Crates) (e : Externals)
    (provide : ModpkgChunkBuilder → Result ModpkgBuilderError (List ℕ)) (b : ModpkgBuilder) where
  entries-Within :
      (written : List ℕ) (entries : List ModpkgChunk)
      → (parts : Parts x e provide b written entries) → (n : ModpkgChunk) → In n entries
      → Within x e (length (reserved e b)) (length (reserved e b) + length parts.bytes) n
  unfolding chunk_of
  entries-Within written entries parts n i =
      elim (In-append n parts.meta parts.regular (subst (In n) parts.entries_are i)) [
        | inl j ↦ meta-Within x e (length (reserved e b)) (indices_of e b).paths n parts.are_meta j
        | inr j ↦
            let m = In-Processed x e provide n parts.processed j in
            subst (Within x e (length (reserved e b)) (length (reserved e b) + length parts.bytes))
              (sym m.made)
              (Keeps-Within x e (length (reserved e b)) parts.bytes m.raw
                (chunk_of e (indices_of e b) m.chunk m.raw m.entry) m.keeps)
      ]

  -- Under the conditions of `load-mount-build`: each chunk of the mounted file has its data after
  -- the chunk table and inside the file.
  pub mounted_chunk_bounds :
      (file : List ℕ) (m : Modpkg) (k : Key) (n : ModpkgChunk)
      → IsBuildable x e provide b
      → length file < 2 ^ 64
      → build_to_writer x e provide b ≡ ok file
      → mount_from_reader x e file ≡ ok m
      → get k m.chunks ≡ some n
      → (length (reserved e b) ≤ n.data_offset) × (n.data_offset + n.compressed_size ≤ length file)
  mounted_chunk_bounds file m k n v small h mounted found =
      let w = build-IsBuilt x e provide b file v small h in
      let is_m : package_of e (layout_of x e provide b w.entries w.parts.bytes) ≡ m =
        cc (w.mounts, mounted) in
      let found' : get k (package_of e (layout_of x e provide b w.entries w.parts.bytes)).chunks
          ≡ some n =
        subst (λ (q : Modpkg). get k q.chunks ≡ some n) (sym is_m) found in
      elim (add_chunks_found (layer_hashes e b.layers) k n w.entries ([], []) found') [
        | inl early ↦ cc
        | inr (there, same) ↦
            let r = entries-Within w.written w.entries w.parts n there in
            (r.0, omega (arith, r.1, w.length_is))
      ]
