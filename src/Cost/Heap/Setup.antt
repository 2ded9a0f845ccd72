-- ===== src/Cost/Heap/Setup.antt =====
-- `init_heaps` and the arrays of shadows.
use cos516_project.Prelude.{
  List, ℕ, ◌<◌, length, ◌≡◌, get_or, set, arith, length-set, get_elem?-eq-get_or, ◌∙◌,
}
use cos516_project.Cost.Heap.{init_heaps, resize}
use cos516_project.Cost.Bounds.{Spends, widen-Spends, then-Spends, for_range-Spends}
use cos516_project.Cost.Machine.{Shadow, blank_shadow}
use cos516_project.Cost.Machine.Rules.{returns}

length-resized :
    (l : List Shadow) (i n : ℕ) (shadow : Shadow)
    → length l ≡ 20
    → length (set l i (record shadow { size = n })) ≡ 20
length-resized l i n shadow e = length-set l i (record shadow { size = n }) ∙ e

module _ (n i : ℕ) (h : i < 20) where
  resize_heaps-Spends :
      Spends 0 0 (resize (λ m. m.shadow_heaps) (λ l m. record m { shadow_heaps = l }) n i)
  unfolding resize
  resize_heaps-Spends s v =
      let l = s.memory.shadow_heaps in
      let d = get_or l i blank_shadow in
      rw (get_elem?-eq-get_or l i blank_shadow (rw v.memory.shadow_heaps h)) (
        returns tt _ (record {
          valid = record {
            tallies = v.tallies;
            buffers = v.buffers;
            memory = record {
              heaps = v.memory.heaps;
              shadow_heaps = length-resized l i n d v.memory.shadow_heaps;
              shadow_globals = v.memory.shadow_globals;
              shadow_stacks = v.memory.shadow_stacks;
            };
          };
          least = omega arith;
          most = omega arith;
        }))

  resize_globals-Spends :
      Spends 0 0 (resize (λ m. m.shadow_globals) (λ l m. record m { shadow_globals = l }) n i)
  unfolding resize
  resize_globals-Spends s v =
      let l = s.memory.shadow_globals in
      let d = get_or l i blank_shadow in
      rw (get_elem?-eq-get_or l i blank_shadow (rw v.memory.shadow_globals h)) (
        returns tt _ (record {
          valid = record {
            tallies = v.tallies;
            buffers = v.buffers;
            memory = record {
              heaps = v.memory.heaps;
              shadow_heaps = v.memory.shadow_heaps;
              shadow_globals = length-resized l i n d v.memory.shadow_globals;
              shadow_stacks = v.memory.shadow_stacks;
            };
          };
          least = omega arith;
          most = omega arith;
        }))

  resize_stacks-Spends :
      Spends 0 0 (resize (λ m. m.shadow_stacks) (λ l m. record m { shadow_stacks = l }) n i)
  unfolding resize
  resize_stacks-Spends s v =
      let l = s.memory.shadow_stacks in
      let d = get_or l i blank_shadow in
      rw (get_elem?-eq-get_or l i blank_shadow (rw v.memory.shadow_stacks h)) (
        returns tt _ (record {
          valid = record {
            tallies = v.tallies;
            buffers = v.buffers;
            memory = record {
              heaps = v.memory.heaps;
              shadow_heaps = v.memory.shadow_heaps;
              shadow_globals = v.memory.shadow_globals;
              shadow_stacks = length-resized l i n d v.memory.shadow_stacks;
            };
          };
          least = omega arith;
          most = omega arith;
        }))

pub init_heaps-Spends : (g h t : ℕ) → Spends 0 0 (init_heaps g h t)
unfolding init_heaps
init_heaps-Spends g h t =
    widen-Spends (init_heaps g h t)
      (then-Spends _ _ (for_range-Spends _ 20 0 λ i _ below. resize_heaps-Spends h i (omega arith))
        (then-Spends _ _
          (for_range-Spends _ 20 0 λ i _ below. resize_globals-Spends g i (omega arith))
          (for_range-Spends _ 20 0 λ i _ below. resize_stacks-Spends t i (omega arith))))
      (omega arith) (omega arith)
