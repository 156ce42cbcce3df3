-- ===== src/Modpkg/Write/ByPath.antt =====
-- A chunk that was built under a path loads by any spelling of that path.
use league_mod.Prelude.{
  ℕ, ◌^◌, ◌<◌, ◌≡◌, inl, inr, true, false, subst, some, Option-cases, List, Text, arith, length,
  nat_ord, pair_ord,
}
use league_mod.Prelude.Assoc.{get, contains_key}
use league_mod.Prelude.Outcome.{Result, ok}
use league_mod.Overlay.Externals.{Externals}
use league_mod.Overlay.FilePath.{is_empty}
use league_mod.Modpkg.Crates.{Crates}
use league_mod.Modpkg.Archive.{
  Key, Modpkg, resolve_chunk_key, load_chunk_decompressed_by_hash, load_chunk_decompressed_by_path,
}
use league_mod.Modpkg.Mount.{mount_from_reader}
use league_mod.Modpkg.Builder.{
  ModpkgBuilderError, ModpkgChunkBuilder, ModpkgBuilder, with_path, key,
}
use league_mod.Modpkg.Write.{build_to_writer}
use league_mod.Modpkg.Write.RoundTrip.{IsBuildable, load-mount-build}

loaded-contains_key :
    (x : Crates) (m : Modpkg) (k : Key) (raw : List ℕ)
    → load_chunk_decompressed_by_hash x m k ≡ ok raw
    → contains_key k m.chunks ≡ true
unfolding load_chunk_decompressed_by_hash
loaded-contains_key x m k raw h = elim (Option-cases (get k m.chunks)) [
  | inl absent ↦ cc
  | inr (n, found) ↦ ground (arith, found)
]

-- A key of the literal path is the one that is used.
resolve-with_path :
    (e : Externals) (m : Modpkg) (c : ModpkgChunkBuilder) (path : Text)
    → is_empty c.layer ≡ false
    → contains_key (key e (with_path e c path)) m.chunks ≡ true
    → resolve_chunk_key e m path (some c.layer) ≡ ok (key e (with_path e c path))
unfolding resolve_chunk_key key with_path
resolve-with_path e m c path named there = ground (arith, named, there)

loads_by_path :
    (x : Crates) (e : Externals) (m : Modpkg) (c : ModpkgChunkBuilder) (path : Text) (raw : List ℕ)
    → is_empty c.layer ≡ false
    → load_chunk_decompressed_by_hash x m (key e (with_path e c path)) ≡ ok raw
    → load_chunk_decompressed_by_path x e m path (some c.layer) ≡ ok raw
unfolding load_chunk_decompressed_by_path
loads_by_path x e m c path raw named h =
    let there = loaded-contains_key x m (key e (with_path e c path)) raw h in
    rw (resolve-with_path e m c path named there) h

-- Under the conditions of `load-mount-build`: if the builder has a chunk under the key that
-- `with_path` gives a path in a layer that is not the empty name, the mounted file loads by that
-- path and that layer's name, as the content that was provided for the chunk.
pub load_by_path-build :
    (x : Crates) (e : Externals) (provide : ModpkgChunkBuilder → Result ModpkgBuilderError (List ℕ))
    (b : ModpkgBuilder) (file : List ℕ) (m : Modpkg) (c d : ModpkgChunkBuilder) (path : Text)
    → IsBuildable x e provide b
    → length file < 2 ^ 64
    → build_to_writer x e provide b ≡ ok file
    → mount_from_reader x e file ≡ ok m
    → is_empty c.layer ≡ false
    → get (key e (with_path e c path)) b.chunks ≡ some d
    → (raw : List ℕ) × (provide d ≡ ok raw)
      × (load_chunk_decompressed_by_path x e m path (some c.layer) ≡ ok raw)
load_by_path-build x e provide b file m c d path v small h mounted named here =
    let r = load-mount-build x e provide b file v small h in
    let l = (r.3) (key e (with_path e c path)) d here in
    let same : r.0 ≡ m = cc (r.1, mounted) in
    (
      l.0,
      l.1,
      loads_by_path x e m c path l.0 named (
          subst (λ q. load_chunk_decompressed_by_hash x q (key e (with_path e c path)) ≡ ok l.0)
            same l.2),
    )
