-- ===== src/Cost/Constants.antt =====
-- simplified_translation/constants.h: the macros, with the values that their texts expand to.
use cos516_project.Prelude.{ℕ, ◌-◌, ◌*◌, ◌/◌, ◌%◌, ℤ, pos, negsuc, leb, if◌then◌else◌}

abbrev pub max_loads : ℕ
max_loads = 12

abbrev pub max_contexts : ℕ
max_contexts = 12

abbrev pub num_aux_workers : ℕ
num_aux_workers = 2

abbrev pub num_heaps : ℕ
num_heaps = 20

abbrev pub num_globals : ℕ
num_globals = 20

abbrev pub num_stacks : ℕ
num_stacks = 20

abbrev pub max_size : ℕ
max_size = 0x1000

abbrev pub num_workers_per_heap : ℕ
num_workers_per_heap = 2

abbrev pub num_stages : ℕ
num_stages = num_heaps

-- `12-NUM_AUX_WORKERS`, where the macro stands alone (an argument, an array bound)
abbrev pub num_workers : ℕ
num_workers = 12 - num_aux_workers

-- `NUM_WORKERS/NUM_WORKERS_PER_HEAP`: the macro has no parentheses, so only 2 is divided
abbrev pub workers_quotient : ℕ
workers_quotient = 12 - num_aux_workers / num_workers_per_heap

-- `x % NUM_WORKERS` is `x % 12 - 2`
abbrev pub mod_workers : ℕ → ℤ
mod_workers x =
    let m = x % 12 in
    if leb num_aux_workers m then pos (m - num_aux_workers) else negsuc (num_aux_workers - m - 1)

abbrev pub num_iters : ℕ
num_iters = num_heaps / workers_quotient * num_workers_per_heap

abbrev pub page_size : ℕ
page_size = 4 * 1024

abbrev pub queue_size : ℕ
queue_size = 8192 * 2

-- `QUEUE_SIZE/(PAGE_SIZE/4)`
abbrev pub full_tally : ℕ
full_tally = queue_size / (page_size / 4)

-- `PAGE_SIZE/sizeof(VerMallocInstance)`: the struct has 8 + 4 + 4 bytes
abbrev pub instances_per_page : ℕ
instances_per_page = page_size / 16
