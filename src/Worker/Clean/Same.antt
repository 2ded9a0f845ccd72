-- ===== src/Worker/Clean/Same.antt =====
-- The scans and the sending of pages in the copy do what those of the runtime do.
use cos516_project.Prelude.{
  ℕ, ◌+◌, ◌∷◌, ◌++◌, ◌≡◌, List, refl, [], ◌∙◌, Bool-cases, ◌==◌, ◌&&◌, inl, inr, arith,
  append_assoc, sym, append-nil,
}
use cos516_project.Worker.Shadow
use cos516_project.Worker.Shadow.{
  clear_loop, count_round, readonly_round, mark_round, mark_read, read_mask, is_written, one_if_set,
}
use cos516_project.Worker.Forward
use cos516_project.Worker.Clean
use cos516_project.Worker.Clean.{
  Scan, scan, scan_round, count_word, mask, forward_loop, buffer_page,
}
use cos516_project.Worker.Forward.{
  forward_words, Platform, buffer_ro_page, flush, Check, Sender, Page, make_room, Call,
}

count_words : (s0 s1 n : ℕ) → count_word s1 (count_word s0 n) ≡ n + one_if_set s0 + one_if_set s1
count_words s0 s1 n = ground arith

-- A round, by its parts.
scan_round_lem :
    (s0 s1 : ℕ) (t : Scan)
    → scan_round s0 s1 t ≡ record {
      nonzero = count_round s0 s1 t.nonzero;
      readonly = readonly_round s0 s1 t.readonly;
      page = t.page ++ mark_round s0 s1 [];
    }
unfolding scan_round mark_read read_mask
scan_round_lem s0 s1 t = elim (Bool-cases (s0 == 0 && s1 == 0)) [
  | inl blank ↦ rw blank refl
  | inr words ↦ rw (words, count_words s0 s1 t.nonzero) refl
]

mark_round-append :
    (s0 s1 : ℕ) (rest : List ℕ) → mark_round s0 s1 [] ++ rest ≡ mark_round s0 s1 rest
mark_round-append s0 s1 rest = elim (Bool-cases (s0 == 0 && s1 == 0)) [
  | inl blank ↦ rw blank refl
  | inr words ↦ rw words refl
]

scan-clear_loop :
    (page : List ℕ) (t : Scan)
    → let r = clear_loop page t.nonzero t.readonly in
      scan page t ≡ record { nonzero = r.nonzero; readonly = r.readonly; page = t.page ++ r.page }
unfolding scan clear_loop
scan-clear_loop [] t = refl
scan-clear_loop (s ∷ []) t = refl
scan-clear_loop (s0 ∷ s1 ∷ rest) t = rw (scan_round_lem s0 s1 t) (
    scan-clear_loop rest _
    ∙ rw (append_assoc t.page (mark_round s0 s1 []) _, mark_round-append s0 s1) refl)

pub clear_read-same : (page : List ℕ) → Clean.clear_read page ≡ Shadow.clear_read page
unfolding Clean.clear_read Shadow.clear_read
clear_read-same page = rw (scan-clear_loop page _) refl

forward_loop-words :
    (address : ℕ) (mem shadow : List ℕ) (check : Check) (calls : List Call)
    → forward_loop address mem shadow check calls ≡ calls ++ forward_words address mem shadow check
unfolding forward_loop forward_words
forward_loop-words address [] shadow check calls = sym (append-nil calls)
forward_loop-words address (m ∷ mem) [] check calls = sym (append-nil calls)
forward_loop-words address (m ∷ mem) (s ∷ shadow) check calls = elim (Bool-cases (s == 0)) [
  | inl blank ↦ rw blank (forward_loop-words (address + 8) mem shadow check calls)
  | inr word ↦
      rw word
        (forward_loop-words (address + 8) mem shadow check _ ∙ append_assoc calls (_ ∷ _ ∷ []) _)
]

pub forward_ro_page-same :
    (buffer_address : ℕ) (s : Sender)
    → Clean.forward_ro_page buffer_address s ≡ Forward.forward_ro_page buffer_address s
unfolding Clean.forward_ro_page Forward.forward_ro_page flush
forward_ro_page-same buffer_address s = elim (Bool-cases (s.index == 0)) [
  | inl none ↦ rw none refl
  | inr some ↦ rw some refl
]

buffer_page-same :
    (buffer_address mem : ℕ) (s : Sender)
    → buffer_page buffer_address mem s ≡ buffer_ro_page buffer_address mem s
unfolding buffer_page buffer_ro_page make_room
buffer_page-same buffer_address mem s = rw (forward_ro_page-same buffer_address s) refl

pub forward_pair-same :
    (u : Platform) (nonzero : ℕ) (p : Page) (check : Check) (s : Sender)
    → Clean.forward_pair u nonzero p check s ≡ Forward.forward_pair u nonzero p check s
unfolding Clean.forward_pair Forward.forward_pair
forward_pair-same u nonzero p check s =
    rw
      (
        forward_loop-words p.address p.mem p.shadow check s.calls,
        buffer_page-same u.buffer_address p.address s,
        append_assoc s.calls (_ ∷ []) (_ ∷ []),
      )
      refl
