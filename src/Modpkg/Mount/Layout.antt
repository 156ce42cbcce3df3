-- ===== src/Modpkg/Mount/Layout.antt =====
-- What `mount_from_reader` makes of a file of the format.
use league_mod.Prelude.{
  ℕ, zero, suc, ◌-◌, ◌%◌, ◌^◌, ◌<◌, ◌≡◌, refl, ap, ◌∙◌, Option, none, some, List, [], ◌∷◌, ◌++◌,
  Text, arith, length, get_elem?, drop, replicate, All, length-append, if◌then◌else◌, ◌==◌, nat_ord,
}
use mathlib.Core.List.{append_assoc}
use league_mod.Prelude.Outcome.{ok}
use league_mod.Overlay.Externals.{Externals}
use league_mod.Modpkg.Types.{ModpkgLayer, ModpkgChunk, no_layer_index, no_layer_hash}
use league_mod.Modpkg.Crates.{Crates, IsCText, Documented}
use league_mod.Modpkg.Archive.{Modpkg}
use league_mod.Modpkg.Reader.Reads.{Reads, Reads-pure, Reads->>=, Reads-last}
use league_mod.Modpkg.Format.{header, write_layers, write_texts, write_alignment, chunks_bytes}
use league_mod.Modpkg.Mount.{
  Chunks, layer_hash_at, add_chunk, read_chunks, skip_alignment, read_front, assemble, read_table,
  read_all, drop_rest, mount_from_reader,
}
use league_mod.Modpkg.Mount.Fields.{
  IsLayer, IsEncodable, Reads-read_chunk, Reads-read_header, layer_hashes, insert_layers,
  Reads-read_layers, path_hashes, insert_paths, Reads-read_chunk_paths, wad_hashes, insert_wads,
  Reads-read_wads,
}

abbrev or_zero : Option ℕ → ℕ
or_zero none = 0
or_zero (some h) = h

-- The hash of the layer with an index, by the table of layers.
abbrev pub layer_hash_of : List ℕ → ℕ → ℕ
layer_hash_of layer_indices index =
    if index == no_layer_index then no_layer_hash else or_zero (get_elem? layer_indices index)

-- A chunk that fits the format, of a layer of the table or of none.
pub record IsPlaced (layer_indices : List ℕ) (c : ModpkgChunk) : Type 0 where
  pub encodable : IsEncodable c
  pub has_layer :
      Reads
        (layer_hash_at layer_indices c.layer_index)
        []
        (layer_hash_of layer_indices c.layer_index)

-- The maps of the chunks of a table.
abbrev pub add_chunks : List ℕ → List ModpkgChunk → Chunks → Chunks
add_chunks layer_indices [] maps = maps
add_chunks layer_indices (c ∷ chunks) maps =
    add_chunks layer_indices chunks (add_chunk c (layer_hash_of layer_indices c.layer_index) maps)

Reads-read_chunks :
    (layer_indices : List ℕ) (chunks : List ModpkgChunk) (maps : Chunks)
    → All (IsPlaced layer_indices) chunks
    → Reads
        (read_chunks (length chunks) layer_indices maps)
        (chunks_bytes chunks)
        (add_chunks layer_indices chunks maps)
unfolding read_chunks chunks_bytes
Reads-read_chunks layer_indices [] maps v = Reads-pure maps
Reads-read_chunks layer_indices (c ∷ chunks) maps v =
    Reads->>= _ _ (Reads-read_chunk c v.0.encodable) (
      Reads->>= _ _ v.0.has_layer (
        Reads-read_chunks layer_indices chunks
          (add_chunk c (layer_hash_of layer_indices c.layer_index) maps) v.1))

length-replicate : (n : ℕ) → length {A = ℕ} (replicate n 0) ≡ n
length-replicate zero = refl
length-replicate (suc n) = omega (arith, length-replicate n)

drop-replicate : (n : ℕ) (rest : List ℕ) → drop n (replicate n 0 ++ rest) ≡ rest
drop-replicate zero rest = refl
drop-replicate (suc n) rest = drop-replicate n rest

-- The padding is what is skipped.
skips :
    (front rest : List ℕ)
    → skip_alignment
        (length (write_alignment front ++ rest))
        (replicate ((8 - length front % 8) % 8) 0 ++ rest)
      ≡ ok (tt, rest)
unfolding skip_alignment write_alignment
skips front rest =
    let pad : List ℕ = replicate ((8 - length front % 8) % 8) 0 in
    let position : length ((front ++ pad) ++ rest) - length (pad ++ rest) ≡ length front =
      omega (
        arith,
        length-append (front ++ pad) rest,
        length-append front pad,
        length-append pad rest,
      ) in
    ap (λ r. ok (tt, r)) (rw position (drop-replicate ((8 - length front % 8) % 8) rest))

-- A file of the format, in its parts.
pub record Layout : Type 0 where
  pub layers : List ModpkgLayer
  pub paths : List Text
  pub wads : List Text
  pub chunks : List ModpkgChunk
  pub tail : List ℕ

unfoldable pub front_of : Layout → List ℕ
front_of a =
    header (length a.chunks)
    ++ (write_layers a.layers ++ (write_texts a.paths ++ write_texts a.wads))

unfoldable pub file_of : Layout → List ℕ
file_of a = write_alignment (front_of a) ++ (chunks_bytes a.chunks ++ a.tail)

module _ (e : Externals) where
  pub record IsLayout (a : Layout) : Type 0 where
    pub layers_fit : All IsLayer a.layers
    pub layer_count_fits : length a.layers < 2 ^ 32
    pub paths_fit : All IsCText a.paths
    pub path_count_fits : length a.paths < 2 ^ 32
    pub wads_fit : All IsCText a.wads
    pub wad_count_fits : length a.wads < 2 ^ 32
    pub chunks_fit : All (IsPlaced (layer_hashes e a.layers)) a.chunks
    pub chunk_count_fits : length a.chunks < 2 ^ 32

  -- The package that a file of the format holds.
  abbrev pub package_of : Layout → Modpkg
  package_of a =
      let maps : Chunks = add_chunks (layer_hashes e a.layers) a.chunks ([], []) in
      record {
        signature = [];
        layer_indices = layer_hashes e a.layers;
        layers = insert_layers e a.layers [];
        chunk_path_indices = path_hashes e a.paths;
        chunk_paths = insert_paths e a.paths [];
        wads_indices = wad_hashes e a.wads;
        wads = insert_wads e a.wads [];
        chunks = maps.0;
        chunks_by_wad_layer = maps.1;
        source = file_of a;
      }

module _ (x : Crates) (e : Externals) (documented : Documented x) where
  Reads-read_front :
      (a : Layout)
      → IsLayout e a
      → Reads (read_front x e) (front_of a) (
        ([], length a.chunks),
        (layer_hashes e a.layers, insert_layers e a.layers []),
        (path_hashes e a.paths, insert_paths e a.paths []),
        (wad_hashes e a.wads, insert_wads e a.wads []),
      )
  unfolding read_front front_of
  Reads-read_front a v = Reads->>= _ _ (Reads-read_header (length a.chunks) v.chunk_count_fits) (
      Reads->>= _ _ (Reads-read_layers e a.layers v.layers_fit v.layer_count_fits) (
        Reads->>= _ _ (Reads-read_chunk_paths x e documented a.paths v.paths_fit v.path_count_fits)
          (Reads-last _ _ (Reads-read_wads x e documented a.wads v.wads_fit v.wad_count_fits))))

  read_all_at :
      (a : Layout)
      → IsLayout e a
      → (source rest : List ℕ) → source ≡ front_of a ++ rest
      → skip_alignment (length source) rest ≡ ok (tt, chunks_bytes a.chunks ++ a.tail)
      → read_all x e source source ≡ ok (record (package_of e a) { source = source }, a.tail)
  unfolding read_all read_table assemble
  read_all_at a v source rest same skip =
      let maps = Reads-read_chunks (layer_hashes e a.layers) a.chunks ([], []) v.chunks_fit in
      ap (read_all x e source) same
      ∙ rw ((Reads-read_front a v).run rest, skip, maps.run a.tail) refl

  -- layout
  pub mount-file_of :
      (a : Layout) → IsLayout e a → mount_from_reader x e (file_of a) ≡ ok (package_of e a)
  unfolding mount_from_reader file_of write_alignment
  mount-file_of a v =
      let rest : List ℕ = chunks_bytes a.chunks ++ a.tail in
      let pad : List ℕ = replicate ((8 - length (front_of a) % 8) % 8) 0 in
      ap drop_rest (
        read_all_at a v (file_of a) (pad ++ rest) (append_assoc (front_of a) pad rest)
          (skips (front_of a) rest))
