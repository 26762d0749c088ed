-- ===== src/Core/DeepEqual/Tests.antt =====
-- Comparisons on small heaps.
use apiwright.Prelude.{zero, suc, ◌≡◌, refl, true, false, none, some, [], ◌∷◌}
use apiwright.Core.Value.{
  number, string, reference, array, object, Heap, strict_equals, numbers_equal, get_property,
}
use apiwright.Core.DeepEqual.{
  deep_equal, equal_at_depth, compare_references, compare_cells, compare_objects, compare_keys,
  compare_arrays, compare_elements, same_primitive, has, record_seen, delete_seen,
}
use apiwright.Core.DeepEqual.Guard.{same_at}
use apiwright.Core.DeepEqual.Frame.{equal_at_depth-Frames}
use apiwright.Core.DeepEqual.Complete.{deep_equal-same_at}

-- Two objects with their keys in another order, which share an array; and an object in a cycle.
abbrev small_heap : Heap
small_heap zero = object (("a", number 0) ∷ ("b", reference 2) ∷ [])
small_heap (suc zero) = object (("b", reference 2) ∷ ("a", number (0x8000_0000_0000_0000)) ∷ [])
small_heap (suc (suc zero)) = array (string "x" ∷ number (0x7ff8_0000_0000_0000) ∷ [])
small_heap _ = object (("self", reference 3) ∷ [])

same_contents : deep_equal small_heap (reference 0) (reference 1) (some 5) ≡ true
unfolding deep_equal equal_at_depth compare_references compare_cells compare_objects compare_keys
    compare_arrays compare_elements same_primitive strict_equals numbers_equal get_property has
    record_seen delete_seen
same_contents = refl

-- Even a value that is the same object is not equal to itself where it is in a cycle.
cycle : deep_equal small_heap (reference 3) (reference 3) (some 5) ≡ false
unfolding deep_equal equal_at_depth compare_references compare_cells compare_objects compare_keys
    get_property has record_seen delete_seen
cycle = refl

deep_equal-same_at_example :
    deep_equal small_heap (reference 3) (reference 3) (some 7)
    ≡ same_at small_heap 7 (reference 3) (reference 3)
deep_equal-same_at_example = deep_equal-same_at small_heap (reference 3) (reference 3) (some 7)

equal_at_depth-Frames_example :
    has (equal_at_depth small_heap 5 (reference 0) (reference 1) (λ _. none)).1 0 1
    ≡ has (λ _. none) 0 1
equal_at_depth-Frames_example =
    equal_at_depth-Frames small_heap 5 (reference 0) (reference 1) (λ _. none) 0 1
