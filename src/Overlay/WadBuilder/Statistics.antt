-- ===== src/Overlay/WadBuilder/Statistics.antt =====
-- The statistics of `build_patched_wad` (crates/ltk_overlay/src/wad_builder.rs): how many hashes of
-- the table are overridden, new, or taken from the source.
use league_mod.Prelude.{
  ℕ, suc, ◌+◌, ◌-◌, ◌≡◌, refl, sym, ap, ◌∙◌, Bool, true, false, not, List, [], ◌∷◌, arith, length,
  select, Bool-cases, inl, inr, if◌then◌else◌, eq_refl, nat_ord,
}
use league_mod.Prelude.HashSet.{contains}
use league_mod.Prelude.Outcome.{Result, ok, >>=-eq-ok}
use league_mod.Overlay.Types.{Error}
use league_mod.Overlay.WadBuilder.{
  WadChunk, WadCrates, PatchedWadStats, hashes_of, insert_hash, sort_hashes, new_hashes, insert_all,
  ordered_hashes, leaving, chunk_at, write_chunks,
}

-- How many hashes pass a test.
abbrev pub count : (ℕ → Bool) → List ℕ → ℕ
count p hs = length (select p hs)

pub count_not : (p : ℕ → Bool) (hs : List ℕ) → count p hs + count (λ h. not (p h)) hs ≡ length hs
count_not p [] = omega arith
count_not p (h ∷ hs) = ground (arith, count_not p hs)

count-insert_hash :
    (p : ℕ → Bool) (h : ℕ) (hs : List ℕ)
    → count p (insert_hash h hs) ≡ (if p h then 1 else 0) + count p hs
unfolding insert_hash
count-insert_hash p h [] = ground arith
count-insert_hash p h (o ∷ hs) = ground (arith, count-insert_hash p h hs)

count-insert_all :
    (p : ℕ → Bool) (hs ordered : List ℕ)
    → count p (insert_all hs ordered) ≡ count p hs + count p ordered
unfolding insert_all
count-insert_all p [] ordered = omega arith
count-insert_all p (h ∷ hs) ordered =
    count-insert_all p hs (insert_hash h ordered) ∙ ground (arith, count-insert_hash p h ordered)

count-sort_hashes : (p : ℕ → Bool) (hs : List ℕ) → count p (sort_hashes hs) ≡ count p hs
unfolding sort_hashes
count-sort_hashes p [] = refl
count-sort_hashes p (h ∷ hs) =
    count-insert_hash p h (sort_hashes hs) ∙ ground (arith, count-sort_hashes p hs)

count-select : (p : ℕ → Bool) (hs : List ℕ) → count p (select p hs) ≡ count p hs
count-select p [] = refl
count-select p (h ∷ hs) = elim (Bool-cases (p h)) [
  | inl t ↦ rw t (rw t (ap suc (count-select p hs)))
  | inr f ↦ rw f (count-select p hs)
]

length-insert_hash : (h : ℕ) (hs : List ℕ) → length (insert_hash h hs) ≡ 1 + length hs
unfolding insert_hash
length-insert_hash h [] = omega arith
length-insert_hash h (o ∷ hs) = ground (arith, length-insert_hash h hs)

length-sort_hashes : (hs : List ℕ) → length (sort_hashes hs) ≡ length hs
unfolding sort_hashes
length-sort_hashes [] = refl
length-sort_hashes (h ∷ hs) =
    length-insert_hash h (sort_hashes hs) ∙ omega (arith, length-sort_hashes hs)

count-none :
    (p : ℕ → Bool) (hs : List ℕ) → ((h : ℕ) → contains h hs ≡ true → p h ≡ false) → count p hs ≡ 0
count-none p [] none_of = refl
count-none p (h ∷ hs) none_of =
    let here : p h ≡ false = none_of h (rw (eq_refl h) refl) in
    rw here (count-none p hs (λ g c. none_of g (ground (arith, c))))

-- The hashes that are new are those of the table that the source does not have.
pub length-new_hashes :
    (override_hashes : List ℕ) (chunks : List WadChunk)
    → length (new_hashes override_hashes chunks)
      ≡ count (λ h. not (contains h (hashes_of chunks))) (ordered_hashes override_hashes chunks)
unfolding new_hashes ordered_hashes
length-new_hashes override_hashes chunks =
    let is_new : ℕ → Bool = λ h. not (contains h (hashes_of chunks)) in
    let found = select is_new override_hashes in
    let old = count-none is_new (hashes_of chunks) (λ h c. ap not c) in
    omega (
      arith,
      length-sort_hashes found,
      count-insert_all is_new (sort_hashes found) (hashes_of chunks),
      count-sort_hashes is_new found,
      count-select is_new override_hashes,
      old,
    )

module _ (w : WadCrates) (source : List ℕ) (chunks : List WadChunk) (override_hashes : List ℕ)
    (resolve_override : ℕ → Result Error (List ℕ)) where
  -- The loop counts the hashes that are overridden.
  pub write_chunks-applied :
      (ordered : List ℕ) (data_offset : ℕ) (written : List ℕ) (applied : ℕ)
      (final_chunks : List WadChunk) (out : List ℕ) (all_applied : ℕ)
      → write_chunks w source chunks override_hashes resolve_override ordered data_offset written
          applied
        ≡ ok (final_chunks, (out, all_applied))
      → all_applied ≡ applied + count (λ h. contains h override_hashes) ordered
  unfolding write_chunks
  write_chunks-applied [] data_offset written applied final_chunks out all_applied h =
      let same : applied ≡ all_applied = cc h in omega (arith, same)
  write_chunks-applied (path_hash ∷ ordered) data_offset written applied final_chunks out
        all_applied h =
      let c =
        >>=-eq-ok
          (leaving written
            (chunk_at w source chunks override_hashes resolve_override path_hash data_offset))
          _ h in
      let r =
        >>=-eq-ok (write_chunks w source chunks override_hashes resolve_override ordered _ _ _) _
          c.2 in
      let rest = write_chunks-applied ordered _ _ _ (r.0).0 ((r.0).1).0 ((r.0).1).1 r.1 in
      let same : ((r.0).1).1 ≡ all_applied = cc (r.2) in sym same ∙ rest ∙ ground arith

  -- The statistics count the hashes that are overridden, new, and passed through.
  pub record AreCounted (stats : PatchedWadStats) (hashes : List ℕ) : Type 0 where
    pub overrides_applied_is :
        stats.overrides_applied ≡ count (λ h. contains h override_hashes) hashes
    pub new_entries_added_is :
        stats.new_entries_added ≡ count (λ h. not (contains h (hashes_of chunks))) hashes
    pub chunks_passed_through_is :
        stats.chunks_passed_through ≡ count (λ h. not (contains h override_hashes)) hashes

  abbrev ordered : List ℕ
  ordered = ordered_hashes override_hashes chunks

  pub written-AreCounted :
      (data_offset : ℕ) (written : List ℕ) (final_chunks : List WadChunk) (out : List ℕ)
      (applied : ℕ)
      → write_chunks w source chunks override_hashes resolve_override ordered data_offset written 0
        ≡ ok (final_chunks, (out, applied))
      → AreCounted
          (record {
            chunks_written = length ordered;
            overrides_applied = applied;
            new_entries_added = length (new_hashes override_hashes chunks);
            chunks_passed_through = length ordered - applied;
          })
          ordered
  written-AreCounted data_offset written final_chunks out applied h =
      let counted = write_chunks-applied ordered data_offset written 0 final_chunks out applied h in
      record {
        overrides_applied_is = omega (arith, counted);
        new_entries_added_is = length-new_hashes override_hashes chunks;
        chunks_passed_through_is =
            omega (arith, counted, count_not (λ g. contains g override_hashes) ordered);
      }
