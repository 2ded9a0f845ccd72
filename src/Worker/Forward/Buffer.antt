-- ===== src/Worker/Forward/Buffer.antt =====
-- The buffer of read-only pages, against the list of the pages sent or waiting.
use cos516_project.Prelude.{
  zero, List, ℕ, ◌≡◌, length, ◌++◌, replicate, ◌∷◌, ◌<◌, ◌≤◌, [], suc, set, ◌≢◌, ◌==◌, arith, ap,
  refl, ◌∙◌, sym, append_assoc, if-elim, ap₂, length-set, length-replicate, subst, append-nil,
}
use cos516_project.Worker.Forward.{
  forward_page, forward_packet, broadcast_eoi, broadcast_malloc_chunk, misspec, check_free,
  check_required, check_ro_page, blank_buffer, put_entry,
}
use cos516_project.Worker.Forward.{forward_ro_page, buffer_ro_page, Sender, Call, make_room, flush}

-- The addresses among the entries of a buffer.
abbrev pub entries : List ℕ → List ℕ
entries [] = []
entries (zero ∷ ps) = entries ps
entries (suc p ∷ ps) = suc p ∷ entries ps

-- The read-only pages that the calls name.
abbrev pub named_pages : List Call → List ℕ
named_pages [] = []
named_pages (forward_page a ps check_ro_page ∷ cs) = entries ps ++ named_pages cs
named_pages (c ∷ cs) = named_pages cs

-- The read-only pages sent or waiting.
abbrev pub ro_pages : Sender → List ℕ
ro_pages s = named_pages s.calls ++ entries s.data_

-- All entries from `i` on are zero.
abbrev IsZeroFrom : ℕ → List ℕ → Type 0
IsZeroFrom i [] = Unit {0}
IsZeroFrom zero (p ∷ ps) = (p ≡ 0) × IsZeroFrom 0 ps
IsZeroFrom (suc i) (p ∷ ps) = IsZeroFrom i ps

-- The buffer has 512 entries, of which those from the index on are free.
pub record IsBuffer (s : Sender) : Type 0 where
  pub size : length s.data_ ≡ 512
  pub fits : s.index ≤ 512
  pub free : IsZeroFrom s.index s.data_

entries-replicate : (n : ℕ) → entries (replicate n 0) ≡ []
entries-replicate zero = refl
entries-replicate (suc n) = entries-replicate n

replicate-IsZeroFrom : (n i : ℕ) → IsZeroFrom i (replicate n 0)
replicate-IsZeroFrom zero zero = tt
replicate-IsZeroFrom zero (suc i) = tt
replicate-IsZeroFrom (suc n) zero = (refl, replicate-IsZeroFrom n 0)
replicate-IsZeroFrom (suc n) (suc i) = replicate-IsZeroFrom n i

length-blank : length blank_buffer ≡ 512
unfolding blank_buffer
length-blank = length-replicate {A = ℕ} 512 0

blank-IsZeroFrom : (i : ℕ) → IsZeroFrom i blank_buffer
unfolding blank_buffer
blank-IsZeroFrom i = replicate-IsZeroFrom 512 i

entries-blank : entries blank_buffer ≡ []
unfolding blank_buffer
entries-blank = entries-replicate 512

entries-free : (ps : List ℕ) → IsZeroFrom 0 ps → entries ps ≡ []
entries-free [] h = refl
entries-free (p ∷ ps) h = rw (h.0, entries-free ps h.1) refl

entries-set :
    (ps : List ℕ) (i page : ℕ)
    → IsZeroFrom i ps
    → i < length ps
    → page ≢ 0
    → entries (set ps i page) ≡ entries ps ++ page ∷ []
entries-set [] i page h lt ne = absurd (omega arith)
entries-set (p ∷ ps) i zero h lt ne = absurd (ne refl)
entries-set (zero ∷ ps) zero (suc page) h lt ne = rw (entries-free ps h.1) refl
entries-set (suc p ∷ ps) zero (suc page) h lt ne = absurd (omega (arith, h.0))
entries-set (zero ∷ ps) (suc i) (suc page) h lt ne = entries-set ps i (suc page) h (omega arith) ne
entries-set (suc p ∷ ps) (suc i) (suc page) h lt ne =
    ap (◌∷◌ (suc p)) (entries-set ps i (suc page) h (omega arith) ne)

set-IsZeroFrom : (ps : List ℕ) (i page : ℕ) → IsZeroFrom i ps → IsZeroFrom (suc i) (set ps i page)
set-IsZeroFrom [] zero page h = tt
set-IsZeroFrom [] (suc i) page h = tt
set-IsZeroFrom (p ∷ ps) zero page h = h.1
set-IsZeroFrom (p ∷ ps) (suc i) page h = set-IsZeroFrom ps i page h

pub named_pages-append :
    (cs ds : List Call) → named_pages (cs ++ ds) ≡ named_pages cs ++ named_pages ds
named_pages-append [] ds = refl
named_pages-append (forward_page a ps check_ro_page ∷ cs) ds =
    ap (◌++◌ (entries ps)) (named_pages-append cs ds)
    ∙ sym (append_assoc (entries ps) (named_pages cs) (named_pages ds))
named_pages-append (forward_page a ps check_free ∷ cs) ds = named_pages-append cs ds
named_pages-append (forward_page a ps check_required ∷ cs) ds = named_pages-append cs ds
named_pages-append (forward_packet a v check ∷ cs) ds = named_pages-append cs ds
named_pages-append (broadcast_eoi ∷ cs) ds = named_pages-append cs ds
named_pages-append (broadcast_malloc_chunk e i ∷ cs) ds = named_pages-append cs ds
named_pages-append (misspec ∷ cs) ds = named_pages-append cs ds

flush-ro_pages :
    (buffer_address : ℕ) (s : Sender)
    → IsBuffer s
    → IsBuffer (flush buffer_address s) × (ro_pages (flush buffer_address s) ≡ ro_pages s)
unfolding flush
flush-ro_pages buffer_address s h = (
  record { size = length-blank; fits = h.fits; free = blank-IsZeroFrom s.index },
  ap₂ (λ (xs ys : List ℕ). xs ++ ys) (named_pages-append s.calls _) entries-blank
      ∙ append-nil _
      ∙ ap (◌++◌ (named_pages s.calls)) (append-nil (entries s.data_)),
)

-- Sending the buffer keeps it well formed and keeps the read-only pages sent or waiting, in order.
pub forward_ro_page-ro_pages :
    (buffer_address : ℕ) (s : Sender)
    → IsBuffer s
    → IsBuffer (forward_ro_page buffer_address s)
      × (ro_pages (forward_ro_page buffer_address s) ≡ ro_pages s)
unfolding forward_ro_page
forward_ro_page-ro_pages buffer_address s h =
    if-elim (λ t. IsBuffer t × (ro_pages t ≡ ro_pages s)) (s.index == 0) (λ _. (h, refl))
      (λ _. flush-ro_pages buffer_address s h)

forward_ro_page-blank :
    (buffer_address : ℕ) (s : Sender)
    → s.index ≢ 0
    → (forward_ro_page buffer_address s).data_ ≡ blank_buffer
unfolding forward_ro_page flush
forward_ro_page-blank buffer_address s ne =
    if-elim (λ (t : Sender). t.data_ ≡ blank_buffer) (s.index == 0)
      (λ e. absurd (ground (arith, ne))) (λ _. refl)

pub reset-IsBuffer : (s : Sender) → s.data_ ≡ blank_buffer → IsBuffer (record s { index = 0 })
reset-IsBuffer s e = record {
  size = ap length e ∙ length-blank;
  fits = omega arith;
  free = subst (IsZeroFrom 0) (sym e) (blank-IsZeroFrom 0);
}

make_room-ro_pages :
    (buffer_address : ℕ) (s : Sender)
    → IsBuffer s
    → IsBuffer (make_room buffer_address s)
      × ((make_room buffer_address s).index < 512)
      × (ro_pages (make_room buffer_address s) ≡ ro_pages s)
unfolding make_room
make_room-ro_pages buffer_address s h =
    if-elim (λ t. IsBuffer t × (t.index < 512) × (ro_pages t ≡ ro_pages s)) (s.index == 512)
      (λ e. (
        reset-IsBuffer (forward_ro_page buffer_address s)
            (forward_ro_page-blank buffer_address s (λ z. ground arith)),
        omega arith,
        (forward_ro_page-ro_pages buffer_address s h).1,
      ))
      (λ e. (h, ground (arith, h.fits), refl))

put_entry-ro_pages :
    (page : ℕ) (s : Sender)
    → page ≢ 0
    → s.index < 512
    → IsBuffer s
    → IsBuffer (put_entry page s) × (ro_pages (put_entry page s) ≡ ro_pages s ++ page ∷ [])
put_entry-ro_pages page s ne lt h = (
  record {
    size = length-set s.data_ s.index page ∙ h.size;
    fits = omega arith;
    free =
        subst (λ i. IsZeroFrom i (set s.data_ s.index page)) {x = suc s.index} (omega arith)
          (set-IsZeroFrom s.data_ s.index page h.free);
  },
  ap (◌++◌ (named_pages s.calls))
        (entries-set s.data_ s.index page h.free (omega (arith, h.size)) ne)
      ∙ sym (append_assoc (named_pages s.calls) (entries s.data_) (page ∷ [])),
)

-- Adding a page that is not NULL to a well-formed read-only buffer keeps it well formed, and
-- appends the page to the pages sent or waiting, also where a full buffer is sent first.
pub buffer_ro_page-ro_pages :
    (buffer_address page : ℕ) (s : Sender)
    → page ≢ 0
    → IsBuffer s
    → IsBuffer (buffer_ro_page buffer_address page s)
      × (ro_pages (buffer_ro_page buffer_address page s) ≡ ro_pages s ++ page ∷ [])
unfolding buffer_ro_page
buffer_ro_page-ro_pages buffer_address page s ne h =
    let (ok, lt, same) = make_room-ro_pages buffer_address s h in
    let (ok', put) = put_entry-ro_pages page (make_room buffer_address s) ne lt ok in
    (ok', put ∙ ap (λ (ps : List ℕ). ps ++ page ∷ []) same)

-- Every read-only page added is named in a call: no entry of the buffer waits.
pub forward_ro_page-none_left :
    (buffer_address : ℕ) (s : Sender)
    → IsBuffer s
    → entries (forward_ro_page buffer_address s).data_ ≡ []
unfolding forward_ro_page flush
forward_ro_page-none_left buffer_address s h =
    if-elim (λ (t : Sender). entries t.data_ ≡ []) (s.index == 0)
      (λ e.
        entries-free s.data_
          (subst (λ i. IsZeroFrom i s.data_) {x = s.index} (ground (arith, e)) h.free))
      (λ e. entries-blank)
