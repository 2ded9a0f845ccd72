-- ===== src/Worker/Tests.antt =====
-- The worker's theorems at concrete pages, buffers and stages.
use cos516_project.Prelude.{
  ℕ, ◌∷◌, ◌++◌, replicate, ◌/◌, ◌≡◌, List, [], ==_iff, length, if◌then◌else◌, ◌*◌, arith, ◌+◌, ◌%◌,
  refl, ◌==◌, ◌^◌, true, false, Bool, ◌<◌, some, leb, ◌↔◌, ◌≤◌, get_or, none,
}
use cos516_project.Worker.Shadow.{clear_read, check_nrbw, check_nrbw_debug}
use cos516_project.Worker.Forward.{
  Platform, Page, Sender, Call, broadcast_eoi, forward_pair, buffer_ro_page, check_required,
  blank_buffer, send,
}
use cos516_project.Worker.Start.{Pcb, begin_iter, exited, returned}
use cos516_project.Worker.Start.Calls.{received, begin_iter_lem, first_stage, own_turn}
use cos516_project.Worker.Iteration.{Worker, Stages, Runtime, run_iteration, end_iter}
use cos516_project.Worker.Forward.Pages.{IsPlatform}
use cos516_project.Worker.Forward.Buffer.{
  IsBuffer, ro_pages, buffer_ro_page-ro_pages, reset-IsBuffer,
}
use cos516_project.Worker.Shadow.Nrbw.{check_nrbw_lem}
use cos516_project.Worker.Shadow.Scan.{all_readonly, nonzero_words, clear_read_lem}
use cos516_project.Worker.Forward.Pairs.{Pair, pair, pairs, pair_at, forward_pair-pairs}
use cos516_project.Worker.Iteration.Delivery.{IsWorker, Delivered, updated, end_iter-Delivered}
use cos516_project.Worker.Iteration.Turns.{IsStage, IsOf, turn, one_worker}

-- A page of which one byte was read, and one of which a byte was written.
abbrev read_words : List ℕ
read_words = 0 ∷ 0 ∷ 4 ∷ 0 ∷ []

abbrev written_words : List ℕ
written_words = 3 ∷ 0 ∷ 0 ∷ 1024 ∷ []

clear_read_lem_example :
    clear_read written_words
    ≡ (if all_readonly written_words then 0 else nonzero_words written_words, written_words)
clear_read_lem_example = clear_read_lem written_words tt

check_nrbw_lem_example : check_nrbw written_words ≡ check_nrbw_debug written_words
check_nrbw_lem_example =
    check_nrbw_lem written_words (omega arith, (omega arith, (omega arith, (omega arith, tt))))

abbrev pub platform : Platform
platform = record {
  buffer_address = 8;
  set_zero_page = λ shadow. replicate (length shadow) 0;
  is_zero_page = λ shadow. nonzero_words shadow == 0;
}

platform-IsPlatform : IsPlatform platform
platform-IsPlatform = record {
  sets_zero = λ shadow. refl;
  tells_zero = λ shadow. ==_iff (nonzero_words shadow) 0;
}

-- The marks of a touched page are in the first byte.
abbrev read_page : Page
read_page = record {
  address = 4096;
  shadow_address = 20480;
  mem = 5 ∷ 6 ∷ 7 ∷ 8 ∷ [];
  shadow = 0x80 ∷ 0 ∷ 4 ∷ 0 ∷ [];
}

abbrev written_page : Page
written_page = record {
  address = 8192;
  shadow_address = 24576;
  mem = 9 ∷ 10 ∷ 11 ∷ 12 ∷ [];
  shadow = 0x83 ∷ 0 ∷ 0 ∷ 1024 ∷ [];
}

abbrev pub fresh_sender : Sender
fresh_sender = record { data_ = blank_buffer; index = 0; calls = [] }

fresh_sender-IsBuffer : IsBuffer fresh_sender
fresh_sender-IsBuffer = reset-IsBuffer fresh_sender refl

buffer_ro_page-ro_pages_example :
    IsBuffer (buffer_ro_page 8 4096 fresh_sender)
    × (ro_pages (buffer_ro_page 8 4096 fresh_sender) ≡ ro_pages fresh_sender ++ 4096 ∷ [])
buffer_ro_page-ro_pages_example =
    buffer_ro_page-ro_pages 8 4096 fresh_sender (λ z. cc) fresh_sender-IsBuffer

forward_pair-pairs_example :
    (cs : List Call) × (ps : List Pair) × ((forward_pair platform 2 written_page check_required
        fresh_sender).0.calls
      ≡ [] ++ cs)
    × (pairs cs ≡ some ps)
    × (length ps ≡ nonzero_words written_page.shadow)
    × ((i : ℕ)
        → i < length written_page.mem
        → pair_at (written_page.address + 8 * i) ps ≡ (
            if get_or written_page.shadow i 0 == 0
            then none
            else some (
                pair
                  (written_page.address + 8 * i)
                  (get_or written_page.mem i 0)
                  (get_or written_page.shadow i 0)
                  check_required)))
forward_pair-pairs_example =
    forward_pair-pairs platform 2 written_page check_required fresh_sender (omega arith)
      (omega arith) refl

-- Stages of two workers each.
abbrev pub stages : Stages
stages = record {
  my_stage = λ wid. wid / 2;
  first_wid = λ stage. 2 * stage;
  replication_factor = λ stage. 2;
  wid_offset = λ iter stage. iter % 2;
}

pub stages-IsStage : IsStage stages 3
stages-IsStage = record {
  replicated = omega arith;
  fits = omega arith;
  consecutive = λ wid lo hi. omega arith;
  offset = λ iter. refl;
}

one_worker_example :
    IsOf stages 3 (turn stages 3 5)
    × (run_iteration stages (turn stages 3 5) 5 ≡ true)
    × ((wid : ℕ) → IsOf stages 3 wid → run_iteration stages wid 5 ≡ true → wid ≡ turn stages 3 5)
one_worker_example = one_worker stages 3 5 stages-IsStage

abbrev pub runtime : Runtime
runtime = record {
  update_loop_invariants = λ ps. ps;
  update_linear_predicted = λ ps. ps;
  advance_iter = λ iter. (iter + 1) % 2 ^ 32;
  malloc_instance_size = 16;
}

abbrev pub worker : Worker
worker = record {
  shadow_globals = read_page ∷ [];
  shadow_stacks = [];
  shadow_heaps = written_page ∷ [];
  malloc_elem = 1 ∷ 2 ∷ [];
  malloc_index = 1;
  sender = fresh_sender;
  iter = 5;
}

worker-IsWorker : IsWorker (updated runtime worker)
worker-IsWorker = record {
  globals = (record { placed = λ z. cc; paired = tt }, tt);
  stacks = tt;
  heaps = (record { placed = λ z. cc; paired = tt }, tt);
  buffer = fresh_sender-IsBuffer;
}

end_iter-Delivered_example :
    (t : Worker) × Delivered worker t
    × (t.malloc_index ≡ 0)
    × (t.iter ≡ 5)
    × (end_iter stages platform runtime 7 worker
        ≡ record t { sender = send broadcast_eoi t.sender; iter = 6 })
end_iter-Delivered_example =
    end_iter-Delivered stages platform runtime 3 7 worker stages-IsStage platform-IsPlatform
      (omega arith, omega arith) refl worker-IsWorker

-- Worker 7 waits two rounds for iteration 5; the misspeculation is later than that.
abbrev pub pcb : Pcb
pcb = record { misspeculation_happened = true; misspeculated_iteration = 9 }

abbrev pub third_read : ℕ → Bool
third_read k = leb 2 k

pub third_read-busy : (j : ℕ) → j < 2 → third_read j ≡ false
third_read-busy j h = ground arith

begin_iter_lem_example :
    ((begin_iter stages pcb 3 third_read 7 5 ≡ some (exited (received 2 5)))
      ↔ ((true ≡ true) × (9 ≤ 5)))
    × ((begin_iter stages pcb 3 third_read 7 5
          ≡ some (returned (received 2 5 ++ (first_stage 5 3 ++ own_turn 7 (turn stages 3 5)))))
        ↔ (¬ ((true ≡ true) × (9 ≤ 5))))
begin_iter_lem_example =
    begin_iter_lem stages pcb 2 3 7 5 third_read third_read-busy refl (omega arith) 3 stages-IsStage
      (omega arith, omega arith)
