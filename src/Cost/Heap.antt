-- ===== src/Cost/Heap.antt =====
-- simplified_translation/heap.c: the sizes of the shadows, and the costs of touching memory.
pub mod Setup
use cos516_project.Prelude.{ℕ, ◌+◌, ◌/◌, List, get_elem?, set}
use cos516_project.Cost.Constants.{num_heaps, num_globals, num_stacks}
use cos516_project.Cost.Machine.{
  Shadow, Heaps, Machine, ok, M, ◌>>=◌, ◌>>◌, tick, in_bounds, for_range,
}

-- `shadows[i].size = n`, in one of the three arrays of shadows
resize : (Heaps → List Shadow) → (List Shadow → Heaps → Heaps) → ℕ → ℕ → M (Unit {0})
resize get put n i = do
  shadow ← λ s. in_bounds (get_elem? (get s.memory) i) s
  λ s.
      ok tt (record s { memory = put (set (get s.memory) i (record shadow { size = n })) s.memory })

unfoldable pub init_heaps : ℕ → ℕ → ℕ → M (Unit {0})
unfolding resize
init_heaps global_size heap_size stack_size = do
  for_range num_heaps 0
      (resize (λ m. m.shadow_heaps) (λ l m. record m { shadow_heaps = l }) heap_size)
  for_range num_globals 0
      (resize (λ m. m.shadow_globals) (λ l m. record m { shadow_globals = l }) global_size)
  for_range num_stacks 0
      (resize (λ m. m.shadow_stacks) (λ l m. record m { shadow_stacks = l }) stack_size)

unfoldable pub update_ver_malloc : M (Unit {0})
update_ver_malloc = tick 200

unfoldable pub update_ver_separation_malloc : M (Unit {0})
update_ver_separation_malloc = tick 400

-- for (i = 0; i < page_size; i += 16)
unfoldable pub update_page : ℕ → M (Unit {0})
update_page page_size = for_range ((page_size + 15) / 16) 0 (λ _. tick 56)

unfoldable pub set_shadow_heaps : ℕ → M (Unit {0})
set_shadow_heaps num_heaps = for_range num_heaps 0 (λ _. tick 1)
