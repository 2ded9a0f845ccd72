-- ===== src/Worker/Clean.antt =====
-- loopevent.cpp: the copy of the runtime's loop events that is cleared of profiling, of the debug
-- output, and of some calls. Its types are those of the runtime.
pub mod Iter
pub mod Same
pub mod SameIter
mod Tests
use cos516_project.Prelude.{
  zero, suc, ℕ, ◌+◌, ◌∷◌, ◌++◌, List, Bool, if◌then◌else◌, bit_and, not, ltb, ◌==◌, true, ◌/◌, ◌||◌,
  [], set, ◌&&◌, false, bit_or,
}
use cos516_project.Worker.Shadow.{not_64}
use cos516_project.Worker.Forward.{
  Sender, Platform, Page, Check, Call, forward_page, forward_packet, check_ro_page, check_required,
  blank_buffer, send, ro_entry_buffer_size,
}

-- What clear_read keeps from round to round.
pub record Scan : Type 0 where
  pub nonzero : ℕ
  pub readonly : Bool
  pub page : List ℕ

-- (s >> 2) & (~(s >> 1)) & 0x0101010101010101L
abbrev pub mask : ℕ → ℕ
mask s = bit_and (bit_and (s / 4) (not_64 (s / 2))) 0x0101010101010101

-- `if (s) nonzero++;`
abbrev pub count_word : ℕ → ℕ → ℕ
count_word s nonzero = if s == 0 then nonzero else nonzero + 1

-- The body of the loop, on the two words of a round.
pub scan_round : ℕ → ℕ → Scan → Scan
scan_round s0 s1 t =
    let written =
      not (bit_and s0 0xfbfbfbfbfbfbfbfb == 0) || not (bit_and s1 0xfbfbfbfbfbfbfbfb == 0) in
    if s0 == 0 && s1 == 0 then record t { page = t.page ++ s0 ∷ s1 ∷ [] } else record {
      nonzero = count_word s1 (count_word s0 t.nonzero);
      readonly = if written then false else t.readonly;
      page = t.page ++ bit_or s0 (bit_and s0 (mask s0)) ∷ bit_or s1 (bit_and s1 (mask s1)) ∷ [];
    }

-- The loop, with what the earlier rounds leave.
pub scan : List ℕ → Scan → Scan
scan (s0 ∷ s1 ∷ rest) t = scan rest (scan_round s0 s1 t)
scan page t = record t { page = t.page ++ page }

pub clear_read : List ℕ → ℕ × List ℕ
clear_read shadow =
    let t = scan shadow (record { nonzero = 0; readonly = true; page = [] }) in
    (if t.readonly then 0 else t.nonzero, t.page)

pub forward_ro_page : ℕ → Sender → Sender
forward_ro_page buffer_address s =
    if not (s.index == 0)
    then record s {
      calls = s.calls ++ forward_page buffer_address s.data_ check_ro_page ∷ [];
      data_ = blank_buffer;
    }
    else s

-- The loop of forward_pair, with the calls that it adds to those before.
pub forward_loop : ℕ → List ℕ → List ℕ → Check → List Call → List Call
forward_loop address (m ∷ mem) (sv ∷ shadow) check calls =
    let sent =
      if not (sv == 0)
      then calls ++ forward_packet address m check ∷ forward_packet 0 sv check ∷ []
      else calls in
    forward_loop (address + 8) mem shadow check sent
forward_loop address mem shadow check calls = calls

-- The last branch: buffering is written out in place.
pub buffer_page : ℕ → ℕ → Sender → Sender
buffer_page buffer_address mem s =
    let room =
      if s.index == ro_entry_buffer_size
      then record (forward_ro_page buffer_address s) { index = 0 }
      else s in
    record room { data_ = set room.data_ room.index mem; index = room.index + 1 }

pub forward_pair : Platform → ℕ → Page → Check → Sender → Sender × Page
forward_pair u nonzero p check s =
    let zeroed = record p { shadow = u.set_zero_page p.shadow } in
    if ltb 8 nonzero
    then (
      record s {
        calls =
            s.calls
            ++ forward_page p.address p.mem check
              ∷ forward_page p.shadow_address p.shadow check
              ∷ [];
      },
      zeroed,
    )
    else if not (nonzero == 0)
    then (record s { calls = forward_loop p.address p.mem p.shadow check s.calls }, zeroed)
    else (buffer_page u.buffer_address p.address s, zeroed)
