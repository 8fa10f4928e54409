-- ===== src/Version/Tests.antt =====
-- The properties of the versions on a few files.
use leveldb_surf.Base.{
  ℕ, zero, suc, ◌<◌, ◌+◌, ◌≡◌, refl, true, false, List, [], ◌∷◌, some, In, inl, inr, Le, arith, ◌⊎◌,
  ◌↔◌, filter, IsSorted,
}
use leveldb_surf.Samples.Keys.{numbers, numbers-IsKeySpace, file}
use leveldb_surf.Version.Files.{FileMetaData, find_file, some_file_overlaps_range}
use leveldb_surf.Version.Files.Search.{first_false, is_below, find_file-first}
use leveldb_surf.Version.Files.Overlap.{IsDisjoint, some_file_overlaps_range-agrees}
use leveldb_surf.Version.Inputs.{get_overlapping_inputs}
use leveldb_surf.Version.Inputs.Closed.{Overlaps, in_range, level0_inputs-closed, sorted_inputs-eq}
use leveldb_surf.Version.Builder.{
  VersionEdit, by_smallest_key, contains, save_files, save_to, apply,
}
use leveldb_surf.Version.Builder.Merge.{merge, kept, save_files-eq, save_files-In}
use leveldb_surf.Version.Builder.Order.{InOrder}
use leveldb_surf.Version.Builder.Edits.{new_builder, deletes, adds}
use leveldb_surf.Version.Builder.Edited.{HasEntry, edit_files}
use leveldb_surf.Version.Builder.Sequence.{apply_all, save_to-IsSorted}
use leveldb_surf.Version.Get.{Read, finds, get}
use leveldb_surf.Version.Get.Walk.{candidates, AreSearchable}
use leveldb_surf.Version.Get.Decide.{decided, charged, get-eq}
use leveldb_surf.Version.Compaction.{add_boundary_inputs}
use leveldb_surf.Version.Outputs.{is_base_level_for_key}
use leveldb_surf.Version.Compaction.Boundary.{AreRanges, IsClosed, add_boundary_inputs-IsClosed}
use leveldb_surf.Version.Outputs.BaseLevel.{levels_free, Passed, is_base_level_for_key-free}
use leveldb_surf.Version.Stats.{level_offset}
use leveldb_surf.Version.Stats.Offsets.{level_offset-sorted}

-- Two files of a sorted level: the user keys 1 to 2, with a part of 2, and 2 to 4.
abbrev left : FileMetaData ℕ
left = file 7 4 9

abbrev right : FileMetaData ℕ
right = file 8 10 18

abbrev level : List (FileMetaData ℕ)
level = left ∷ right ∷ []

le_compute : (a b : ℕ) → a < b + 1 → Le numbers.internal_cmp a b
le_compute a b h g = ground arith

level-IsDisjoint : IsDisjoint numbers level
level-IsDisjoint =
    (le_compute 4 9 (omega arith), (refl, tt), (le_compute 10 18 (omega arith), tt, tt))

find_file-first_example :
    find_file numbers level 12 ≡ some (first_false (is_below numbers 12) level)
find_file-first_example =
    find_file-first numbers 12 level ((λ h. absurd (cc)), ((λ h. tt), tt)) (omega arith)

some_file_overlaps_range-agrees_example :
    some_file_overlaps_range numbers true level (some 5) (some 6)
    ≡ some_file_overlaps_range numbers false level (some 5) (some 6)
some_file_overlaps_range-agrees_example =
    some_file_overlaps_range-agrees numbers-IsKeySpace level (some 5) (some 6) level-IsDisjoint
      (omega arith)

level0_inputs-closed_example :
    (xs : List (FileMetaData ℕ)) × (get_overlapping_inputs numbers 0 level (some 4) (some 5)
      ≡ some xs)
    × ((g : FileMetaData ℕ) → In g xs → In g level)
    × ((g : FileMetaData ℕ) → In g level → in_range numbers (some 4) (some 5) g ≡ true → In g xs)
    × ((f g : FileMetaData ℕ) → In f xs → In g level → Overlaps numbers f g → In g xs)
level0_inputs-closed_example = level0_inputs-closed numbers-IsKeySpace level (some 4) (some 5)

sorted_inputs-eq_example :
    get_overlapping_inputs numbers 1 level (some 4) (some 5)
    ≡ some (filter (in_range numbers (some 4) (some 5)) level)
sorted_inputs-eq_example = sorted_inputs-eq numbers 0 level (some 4) (some 5)

save_files-eq_example :
    save_files numbers (8 ∷ []) [] level (file 9 20 24 ∷ [])
    ≡ filter (kept numbers (8 ∷ [])) (merge numbers level (file 9 20 24 ∷ []))
save_files-eq_example = save_files-eq numbers (8 ∷ []) level (file 9 20 24 ∷ [])

save_files-In_example :
    In left (save_files numbers (8 ∷ []) [] level [])
    ↔ ((In left level ⊎ In left []) × (contains 7 (8 ∷ []) ≡ false))
save_files-In_example = save_files-In numbers (8 ∷ []) left level []

level-IsSorted : IsSorted (InOrder numbers) level
unfolding by_smallest_key
level-IsSorted = ((refl, tt), (tt, tt))

abbrev base : ℕ → List (FileMetaData ℕ)
base l = level

abbrev edit : VersionEdit ℕ
edit = record {
  compact_pointers = [];
  deleted_files = (1, 7) ∷ [];
  new_files = (1, file 9 20 24) ∷ [];
}

abbrev added : FileMetaData ℕ
added = file 9 20 24

edit_files_example :
    (In added (base 1)
      → deletes 1 9 edit.deleted_files ≡ false
      → In added (save_to numbers (apply numbers new_builder edit) base 1))
    × (In (1, added) edit.new_files
        → HasEntry numbers added (save_to numbers (apply numbers new_builder edit) base 1))
    × (In added (save_to numbers (apply numbers new_builder edit) base 1)
        → In (1, added) edit.new_files
          ⊎ (In added (base 1)
              × ((deletes 1 9 edit.deleted_files ≡ false) ⊎ (adds 1 9 edit.new_files ≡ true))))
edit_files_example = edit_files numbers-IsKeySpace base edit 1 added

save_to-IsSorted_example :
    IsSorted
      (InOrder numbers)
      (save_to numbers (apply_all numbers new_builder (edit ∷ edit ∷ [])) base 1)
save_to-IsSorted_example =
    save_to-IsSorted numbers numbers-IsKeySpace base (edit ∷ edit ∷ []) (λ l. level-IsSorted) 1

-- A version with files at level 1 only.
abbrev one_level : ℕ → List (FileMetaData ℕ)
one_level zero = []
one_level (suc l) = level

abbrev read : FileMetaData ℕ → Read ℕ
read f = finds 42

is_searchable : AreSearchable numbers 2 8 one_level
is_searchable = record {
  in_order = λ l. ((λ h. (refl, tt)), ((λ h. tt), tt));
  few = λ l. omega arith;
}

get-eq_example : get numbers read one_level 2 8 ≡ (
    let fs = candidates numbers 2 8 one_level in
    some ((decided read fs).0, (decided read fs).1, charged read fs))
get-eq_example = get-eq numbers read one_level 2 8 is_searchable

level-AreRanges : AreRanges numbers level
level-AreRanges f (inl e) = rw e (le_compute 4 9 (omega arith))
level-AreRanges f (inr (inl e)) = rw e (le_compute 10 18 (omega arith))
level-AreRanges f (inr (inr m)) = elim m [ ]

add_boundary_inputs-IsClosed_example :
    (r : List (FileMetaData ℕ)) × (add_boundary_inputs numbers level (left ∷ []) ≡ some r)
    × IsClosed numbers level (left ∷ []) r
add_boundary_inputs-IsClosed_example =
    add_boundary_inputs-IsClosed numbers-IsKeySpace level left [] level-AreRanges

is_base_level_for_key-free_example :
    ((is_base_level_for_key numbers (λ l. level) 1 3 (λ l. 0)).0
      ≡ levels_free numbers (λ l. level) 3 4 3)
    × ((next : ℕ)
        → Le numbers.user_cmp 3 next
        → (l : ℕ)
        → Passed numbers next level ((is_base_level_for_key numbers (λ l. level) 1 3 (λ l. 0)).1 l))
is_base_level_for_key-free_example =
    is_base_level_for_key-free numbers-IsKeySpace (λ l. level) 1 3 (λ l. 0)
      (λ l h. level-IsDisjoint) (λ l. (omega arith, tt))

level_offset-sorted_example :
    level_offset numbers (λ f i. 50) true 8 level ≡ level_offset numbers (λ f i. 50) false 8 level
level_offset-sorted_example =
    level_offset-sorted numbers-IsKeySpace (λ f i. 50) 8 level level-IsDisjoint
