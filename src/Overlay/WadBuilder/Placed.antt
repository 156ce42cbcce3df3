-- ===== src/Overlay/WadBuilder/Placed.antt =====
-- What the entries of a patched WAD point at.
use league_mod.Prelude.{
  ℕ, ◌+◌, ◌%◌, ◌^◌, ◌<◌, ◌≡◌, sym, ap, subst, ◌∙◌, List, [], ◌∷◌, ◌++◌, arith, length,
  length-append, All, if◌then◌else◌, nat_ord,
}
use mathlib.Core.List.{append-nil, append_assoc}
use league_mod.Prelude.HashSet.{contains}
use league_mod.Prelude.Slices.{Holds, Holds-grow}
use league_mod.Prelude.Outcome.{Result, ok, err, >>=-eq-ok}
use league_mod.Overlay.Types.{Error}
use league_mod.Overlay.WadBuilder.{WadChunk, WadCrates, hashes_of, leaving, chunk_at, write_chunks}
use league_mod.Overlay.WadBuilder.Entry.{IsContent, IsEntry, IsSource, chunk_at-IsEntry}

pub leaving-eq-ok :
    {A : Type 0} (written : List ℕ) (r : Result Error A) (a : A)
    → leaving written r ≡ ok a
    → r ≡ ok a
leaving-eq-ok written (ok b) a h = cc
leaving-eq-ok written (err e) a h = cc

module _ (w : WadCrates) (source : List ℕ) (chunks : List WadChunk) (override_hashes : List ℕ)
    (resolve_override : ℕ → Result Error (List ℕ)) where
  -- Every entry has its bytes in the data, which begin at `base`.
  pub record IsPlaced (base : ℕ) (bytes : List ℕ) (n : WadChunk) : Type 0 where
    pub raw : List ℕ
    pub holds : Holds base bytes n.data_offset raw
    pub offset_fits : n.data_offset < 2 ^ 32
    pub size_is : n.compressed_size ≡ length raw
    pub content : IsContent w source chunks override_hashes resolve_override n raw

  IsPlaced-grow :
      (base : ℕ) (bytes more : List ℕ) (n : WadChunk)
      → IsPlaced base bytes n
      → IsPlaced base (bytes ++ more) n
  IsPlaced-grow base bytes more n p = record {
    raw = p.raw;
    holds = Holds-grow base bytes more n.data_offset p.raw p.holds;
    offset_fits = p.offset_fits;
    size_is = p.size_is;
    content = p.content;
  }

  IsEntry-IsPlaced :
      (base : ℕ) (bytes : List ℕ) (path_hash : ℕ) (n : WadChunk) (raw : List ℕ)
      → IsEntry w source chunks override_hashes resolve_override path_hash
          (base + length bytes)
          n
          raw
      → IsPlaced base (bytes ++ raw) n
  IsEntry-IsPlaced base bytes path_hash n raw m = record {
    raw = raw;
    holds = record {
      before = bytes;
      after = [];
      split = ap (λ t. bytes ++ t) (sym (append-nil raw));
      offset_is = m.offset_is;
    };
    offset_fits = subst (λ o. o < 2 ^ 32) (sym m.offset_is) m.offset_fits;
    size_is = m.size_is;
    content = m.content;
  }

  pub record AreWritten (front bytes : List ℕ) (ordered : List ℕ) (final_chunks : List WadChunk)
      (written : List ℕ) : Type 0 where
    pub more : List ℕ
    pub written_is : written ≡ front ++ (bytes ++ more)
    pub hashes_are : hashes_of final_chunks ≡ ordered
    pub placed : All (IsPlaced (length front) (bytes ++ more)) final_chunks

  module _ (v : IsSource w source chunks override_hashes resolve_override) where
    pub write_chunks-AreWritten :
        (front : List ℕ) (ordered bytes : List ℕ) (data_offset applied applied' : ℕ)
        (final_chunks : List WadChunk) (written : List ℕ)
        → data_offset ≡ length front + length bytes
        → write_chunks w source chunks override_hashes resolve_override ordered data_offset
            (front ++ bytes)
            applied
          ≡ ok (final_chunks, (written, applied'))
        → AreWritten front bytes ordered final_chunks written
    unfolding write_chunks
    write_chunks-AreWritten front [] bytes data_offset applied applied' final_chunks written at h =
        let out : (final_chunks ≡ []) × (written ≡ front ++ bytes) = (cc, cc) in
        record {
          more = [];
          written_is = out.1 ∙ ap (λ t. front ++ t) (sym (append-nil bytes));
          hashes_are = ap hashes_of out.0;
          placed = subst (All (IsPlaced (length front) (bytes ++ []))) (sym out.0) tt;
        }
    write_chunks-AreWritten front (path_hash ∷ ordered) bytes data_offset applied applied'
          final_chunks written at h =
        let r =
          >>=-eq-ok
            (leaving (front ++ bytes)
              (chunk_at w source chunks override_hashes resolve_override path_hash data_offset))
            _ h in
        let n : WadChunk = (r.0).0 in
        let raw : List ℕ = (r.0).1 in
        let entry : IsEntry w source chunks override_hashes resolve_override path_hash
            (length front + length bytes) n raw =
          subst (λ o. IsEntry w source chunks override_hashes resolve_override path_hash o n raw) at
            (chunk_at-IsEntry w source chunks override_hashes resolve_override v path_hash
              data_offset n raw (leaving-eq-ok (front ++ bytes) _ (n, raw) r.1)) in
        let applied₁ : ℕ = if contains path_hash override_hashes then applied + 1 else applied in
        let offset₁ : ℕ = (data_offset + length raw) % 2 ^ 64 in
        let q =
          >>=-eq-ok
            (write_chunks w source chunks override_hashes resolve_override ordered offset₁
              ((front ++ bytes) ++ raw) applied₁)
            _ r.2 in
        let next : offset₁ ≡ length front + length (bytes ++ raw) =
          omega (arith, at, entry.offset_fits, entry.short, length-append bytes raw) in
        let rest =
          write_chunks-AreWritten front ordered (bytes ++ raw) offset₁ applied₁ ((q.0).1).1 (q.0).0
            ((q.0).1).0 next
            (subst
              (λ t.
                write_chunks w source chunks override_hashes resolve_override ordered offset₁ t
                  applied₁
                ≡ ok ((q.0).0, (((q.0).1).0, ((q.0).1).1)))
              (append_assoc front bytes raw) q.1) in
        let grow = append_assoc bytes raw rest.more in
        let chunks_are : n ∷ (q.0).0 ≡ final_chunks = cc (q.2) in
        let written_is : ((q.0).1).0 ≡ written = cc (q.2) in
        record {
          more = raw ++ rest.more;
          written_is = sym written_is ∙ rest.written_is ∙ ap (λ t. front ++ t) grow;
          hashes_are =
              subst (λ l. hashes_of l ≡ path_hash ∷ ordered) chunks_are
                (rw (entry.hash_is) (ap (λ l. path_hash ∷ l) rest.hashes_are));
          placed =
              subst (λ t. All (IsPlaced (length front) t) final_chunks) grow
                (subst (All (IsPlaced (length front) ((bytes ++ raw) ++ rest.more))) chunks_are (
                  IsPlaced-grow (length front) (bytes ++ raw) rest.more n
                      (IsEntry-IsPlaced (length front) bytes path_hash n raw entry),
                  rest.placed,
                ));
        }
