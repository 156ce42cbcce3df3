-- ===== src/Overlay/WadBuilder/Entry.antt =====
-- One round of `build_patched_wad`: the entry and its bytes.
use league_mod.Prelude.{
  ℕ, ◌+◌, ◌%◌, ◌^◌, ◌<◌, ◌≤◌, ◌≡◌, refl, sym, ap, subst, ◌∙◌, inl, inr, Bool, true, false,
  Bool-cases, ◌||◌, ◌&&◌, leb, take, drop, zero, suc, ◌-◌, Option, some, none, List, [], ◌∷◌, arith,
  ltb, length, All, if◌then◌else◌, ◌==◌, nat_ord,
}
use league_mod.Prelude.HashSet.{contains}
use league_mod.Prelude.Outcome.{Result, ok, err, >>=-eq-ok}
use league_mod.Overlay.Types.{Error, other}
use league_mod.Overlay.WadBuilder.{
  WadChunkCompression, WadChunk, WadCrates, find_chunk, get_range, compress_by_type, override_chunk,
  pass_data, pass_found, pass_through, chunk_at,
}

if-eq-ok :
    {A : Type 0} (c : Bool) (e : Error) (a b : A)
    → (if c then err e else ok a) ≡ ok b
    → (c ≡ false) × (a ≡ b)
if-eq-ok true e a b h = cc
if-eq-ok false e a b h = (refl, cc)

length-take : (n : ℕ) (bytes : List ℕ) → n ≤ length bytes → length (take n bytes) ≡ n
length-take zero bytes h = ground arith
length-take (suc n) [] h = ground (arith, h)
length-take (suc n) (b ∷ bytes) h = omega (arith, length-take n bytes (omega (arith, h)))

length-drop : (n : ℕ) (bytes : List ℕ) → length (drop n bytes) ≡ length bytes - n
length-drop zero bytes = ground arith
length-drop (suc n) [] = ground arith
length-drop (suc n) (b ∷ bytes) = omega (arith, length-drop n bytes)

some_if :
    {A : Type 0} (c : Bool) (a b : A) → (if c then some a else none) ≡ some b → (c ≡ true) × (a ≡ b)
some_if true a b h = (refl, cc)
some_if false a b h = cc

-- A range that is there has its length.
length-get_range :
    (source : List ℕ) (start end : ℕ) (raw : List ℕ)
    → get_range source start end ≡ some raw
    → (length raw ≡ end - start) × (end - start ≤ length source)
unfolding get_range
length-get_range source start end raw h =
    let r =
      some_if (leb start end && leb end (length source)) (take (end - start) (drop start source))
        raw h in
    let bounds : (start ≤ end) × (end ≤ length source) = ground (arith, r.0) in
    let fits : end - start ≤ length (drop start source) =
      omega (arith, bounds.0, bounds.1, length-drop start source) in
    (
      ap (length {A = ℕ}) (sym r.1) ∙ length-take (end - start) (drop start source) fits,
      omega (arith, bounds.0, bounds.1),
    )

All_of_found :
    (P : WadChunk → Type 0) (h : ℕ) (c : WadChunk) (chunks : List WadChunk)
    → find_chunk h chunks ≡ some c
    → All P chunks
    → P c
All_of_found P h c [] found a = cc
All_of_found P h c (d ∷ chunks) found a = elim (Bool-cases (d.path_hash == h)) [
  | inl same ↦ let is_c : d ≡ c = ground (arith, same, found) in subst P is_c a.0
  | inr differs ↦ All_of_found P h c chunks (ground (arith, differs, found)) a.1
]

module _ (w : WadCrates) (source : List ℕ) (chunks : List WadChunk) (override_hashes : List ℕ)
    (resolve_override : ℕ → Result Error (List ℕ)) where
  -- What the bytes of an entry are: an override, compressed, or what the source has.
  pub data IsContent (n : WadChunk) (bytes : List ℕ) : Type 0 where
    overridden :
        {override_data : List ℕ}
        → contains n.path_hash override_hashes ≡ true
        → resolve_override n.path_hash ≡ ok override_data
        → compress_by_type w override_data n.compression_type ≡ ok bytes
        → n.uncompressed_size ≡ length override_data
        → n.checksum ≡ w.xxh3_64 bytes
        → IsContent n bytes
    passed :
        {orig : WadChunk}
        → contains n.path_hash override_hashes ≡ false
        → find_chunk n.path_hash chunks ≡ some orig
        → get_range source orig.data_offset ((orig.data_offset + orig.compressed_size) % 2 ^ 64)
          ≡ some bytes
        → n.compression_type ≡ orig.compression_type
        → n.uncompressed_size ≡ orig.uncompressed_size
        → n.checksum ≡ orig.checksum
        → IsContent n bytes

  -- One round: the entry, before its bytes are in the file.
  pub record IsEntry (path_hash data_offset : ℕ) (n : WadChunk) (bytes : List ℕ) : Type 0 where
    pub hash_is : n.path_hash ≡ path_hash
    pub offset_is : n.data_offset ≡ data_offset
    pub offset_fits : data_offset < 2 ^ 32
    pub size_is : n.compressed_size ≡ length bytes
    pub short : length bytes < 2 ^ 63
    pub content : IsContent n bytes

  override_chunk-IsEntry :
      (path_hash data_offset : ℕ) (n : WadChunk) (bytes : List ℕ)
      → data_offset < 2 ^ 32
      → contains path_hash override_hashes ≡ true
      → override_chunk w source chunks override_hashes resolve_override path_hash data_offset
        ≡ ok (n, bytes)
      → IsEntry path_hash data_offset n bytes
  unfolding override_chunk
  override_chunk-IsEntry path_hash data_offset n bytes fits there h =
      let r = >>=-eq-ok (resolve_override path_hash) _ h in
      let compression : WadChunkCompression = w.ideal_compression r.0 in
      let s = >>=-eq-ok (compress_by_type w r.0 compression) _ r.2 in
      let made =
        if-eq-ok (ltb (2 ^ 32 - 1) (length s.0) || ltb (2 ^ 32 - 1) (length r.0)) other
          (
            record {
              path_hash = path_hash;
              data_offset = data_offset;
              compressed_size = length s.0;
              uncompressed_size = length r.0;
              compression_type = compression;
              is_duplicated = false;
              frame_count = 0;
              start_frame = 0;
              checksum = w.xxh3_64 s.0;
            },
            s.0,
          )
          (n, bytes) s.2 in
      subst (λ p. IsEntry path_hash data_offset p.0 p.1) made.1
        (record {
          hash_is = refl;
          offset_is = refl;
          offset_fits = fits;
          size_is = refl;
          short = ground (arith, made.0);
          content = overridden there r.1 s.1 refl refl;
        })

  -- What is relied on of the source: its length, and that no entry ends beyond 64 bits.
  pub record IsSource : Type 0 where
    pub small : length source < 2 ^ 63
    pub ends_fit : All (λ (c : WadChunk). c.data_offset + c.compressed_size < 2 ^ 64) chunks

  module _ (v : IsSource) where
    pass_data-IsEntry :
        (path_hash data_offset : ℕ) (orig n : WadChunk) (raw : Option (List ℕ)) (bytes : List ℕ)
        → data_offset < 2 ^ 32
        → contains path_hash override_hashes ≡ false
        → find_chunk path_hash chunks ≡ some orig
        → get_range source orig.data_offset ((orig.data_offset + orig.compressed_size) % 2 ^ 64)
          ≡ raw
        → pass_data w source chunks override_hashes resolve_override path_hash data_offset orig raw
          ≡ ok (n, bytes)
        → IsEntry path_hash data_offset n bytes
    unfolding pass_data
    pass_data-IsEntry path_hash data_offset orig n none bytes fits absent found range h = cc
    pass_data-IsEntry path_hash data_offset orig n (some raw) bytes fits absent found range h =
        let ends =
          All_of_found (λ (c : WadChunk). c.data_offset + c.compressed_size < 2 ^ 64) path_hash orig
            chunks found v.ends_fit in
        let len =
          length-get_range source orig.data_offset
            ((orig.data_offset + orig.compressed_size) % 2 ^ 64) raw range in
        let made : WadChunk × List ℕ = (
          record orig { path_hash = path_hash; data_offset = data_offset; is_duplicated = false },
          raw,
        ) in
        let same : made ≡ (n, bytes) = cc in
        subst (λ p. IsEntry path_hash data_offset p.0 p.1) same
          (record {
            hash_is = refl;
            offset_is = refl;
            offset_fits = fits;
            size_is = omega (arith, ends, len.0);
            short = omega (arith, len.0, len.1, v.small);
            content = passed absent found range refl refl refl;
          })

    pass_found-IsEntry :
        (path_hash data_offset : ℕ) (n : WadChunk) (found : Option WadChunk) (bytes : List ℕ)
        → data_offset < 2 ^ 32
        → contains path_hash override_hashes ≡ false
        → find_chunk path_hash chunks ≡ found
        → pass_found w source chunks override_hashes resolve_override path_hash data_offset found
          ≡ ok (n, bytes)
        → IsEntry path_hash data_offset n bytes
    unfolding pass_found
    pass_found-IsEntry path_hash data_offset n none bytes fits absent found h = cc
    pass_found-IsEntry path_hash data_offset n (some orig) bytes fits absent found h =
        pass_data-IsEntry path_hash data_offset orig n _ bytes fits absent found refl h

    pub chunk_at-IsEntry :
        (path_hash data_offset : ℕ) (n : WadChunk) (bytes : List ℕ)
        → chunk_at w source chunks override_hashes resolve_override path_hash data_offset
          ≡ ok (n, bytes)
        → IsEntry path_hash data_offset n bytes
    unfolding chunk_at pass_through
    chunk_at-IsEntry path_hash data_offset n bytes h =
        elim (Bool-cases (ltb (2 ^ 32 - 1) data_offset)) [
          | inl above ↦ absurd (ground (arith, above, h))
          | inr within ↦
              let fits : data_offset < 2 ^ 32 = ground (arith, within) in
              elim (Bool-cases (contains path_hash override_hashes)) [
                | inl there ↦
                    override_chunk-IsEntry path_hash data_offset n bytes fits there
                      (ground (arith, within, there, h))
                | inr absent ↦
                    pass_found-IsEntry path_hash data_offset n (find_chunk path_hash chunks) bytes
                      fits absent refl (ground (arith, within, absent, h))
              ]
        ]
