-- ===== src/Worker/Forward/ReadOnly.antt =====
-- What a loop of `end_iter` over pages does to the buffer of read-only pages.
use cos516_project.Prelude.{
  ◌∷◌, List, ℕ, ◌≡◌, arith, if-elim, false, true, not, refl, [], All, if◌then◌else◌, subst, sym,
  ◌&&◌, ◌==◌, ◌≢◌, append-nil, ◌++◌, ◌∙◌, ◌+◌, ap, ltb, append_assoc,
}
use cos516_project.Worker.Forward.{
  end_page, end_pages, Platform, check_required, Call, forward_pair, Page, is_touched, Check,
  Sender, clear_touched, send, forward_words, forward_page,
}
use cos516_project.Worker.Forward.Buffer.{
  named_pages-append, ro_pages, IsBuffer, named_pages, entries, buffer_ro_page-ro_pages,
}
use cos516_project.Worker.Shadow.Scan.{nonzero_words, all_readonly, IsPaired, clear_read_lem}
use cos516_project.Worker.Shadow.{clear_read}
use cos516_project.Worker.Forward.Pages.{IsPlatform}

-- A touched page that was read and not written, by its address.
abbrev pub readonly_page : Page → List ℕ
readonly_page p =
    let cleared = clear_touched p.shadow in
    if is_touched p.shadow && not (nonzero_words cleared == 0) && all_readonly cleared
    then p.address ∷ []
    else []

abbrev pub readonly_pages : List Page → List ℕ
readonly_pages [] = []
readonly_pages (p ∷ ps) = readonly_page p ++ readonly_pages ps

-- The calls so far have named these read-only pages more, and the buffer is well formed.
abbrev pub Adds : Sender → List ℕ → Sender → Type 0
Adds s pages t = IsBuffer t × (ro_pages t ≡ ro_pages s ++ pages)

Adds-nil : (s : Sender) → IsBuffer s → Adds s [] s
Adds-nil s h = (h, sym (append-nil (ro_pages s)))

named_pages-forward_words :
    (address : ℕ) (mem shadow : List ℕ) (check : Check)
    → named_pages (forward_words address mem shadow check) ≡ []
unfolding forward_words
named_pages-forward_words address [] shadow check = refl
named_pages-forward_words address (m ∷ mem) [] check = refl
named_pages-forward_words address (m ∷ mem) (x ∷ shadow) check =
    let rest = named_pages-forward_words (address + 8) mem shadow check in
    if-elim (λ (cs : List Call). named_pages cs ≡ []) (x == 0) (λ _. rest) (λ _. rest)

pub Adds-trans : (s t r : Sender) (xs ys : List ℕ) → Adds s xs t → Adds t ys r → Adds s (xs ++ ys) r
Adds-trans s t r xs ys (h, e) (h', e') =
    (h', e' ∙ ap (λ (ps : List ℕ). ps ++ ys) e ∙ append_assoc (ro_pages s) xs ys)

-- Calls that name no read-only page change nothing of the buffer.
pub calls-Adds :
    (cs : List Call) (s : Sender)
    → named_pages cs ≡ []
    → IsBuffer s
    → Adds s [] (record s { calls = s.calls ++ cs })
calls-Adds cs s none_named h = (
  record { size = h.size; fits = h.fits; free = h.free },
  ap (λ (ns : List ℕ). ns ++ entries s.data_)
        (named_pages-append s.calls cs ∙ ap (◌++◌ (named_pages s.calls)) none_named ∙ append-nil _)
      ∙ sym (append-nil (ro_pages s)),
)

abbrev buffered : ℕ → Page → List ℕ
buffered nonzero p = if nonzero == 0 then p.address ∷ [] else []

none_buffered :
    (nonzero : ℕ) (p : Page) (s t : Sender)
    → (nonzero == 0) ≡ false
    → Adds s [] t
    → Adds s (buffered nonzero p) t
none_buffered nonzero p s t e a = rw e a

send_page-Adds :
    (address : ℕ) (words : List ℕ) (s : Sender)
    → IsBuffer s
    → Adds s [] (send (forward_page address words check_required) s)
send_page-Adds address words s h =
    calls-Adds (forward_page address words check_required ∷ []) s refl h

forward_pair-Adds :
    (u : Platform) (nonzero : ℕ) (p : Page) (s : Sender)
    → p.address ≢ 0
    → IsBuffer s
    → Adds s (buffered nonzero p) (forward_pair u nonzero p check_required s).0
unfolding forward_pair
forward_pair-Adds u nonzero p s ne h =
    let P : Sender × Page → Type 0 = λ r. Adds s (buffered nonzero p) r.0 in
    if-elim P (ltb 8 nonzero)
      (λ e.
        let first = send_page-Adds p.address p.mem s h in
        none_buffered nonzero p s _ (ground (arith, e))
          (Adds-trans s _ _ [] [] first (send_page-Adds p.shadow_address p.shadow _ first.0)))
      (λ _.
        if-elim P (not (nonzero == 0))
          (λ e. none_buffered nonzero p s _ (ground (arith, e)) (
            calls-Adds (forward_words p.address p.mem p.shadow check_required) s
              (named_pages-forward_words p.address p.mem p.shadow check_required) h))
          (λ e.
            let zero_words : (nonzero == 0) ≡ true = ground (arith, e) in
            rw zero_words (buffer_ro_page-ro_pages u.buffer_address p.address s ne h)))

clear_touched-IsPaired : (shadow : List ℕ) → IsPaired shadow → IsPaired (clear_touched shadow)
clear_touched-IsPaired [] h = tt
clear_touched-IsPaired (s ∷ []) h = h
clear_touched-IsPaired (s0 ∷ s1 ∷ shadow) h = h

untouched-readonly_page : (p : Page) → is_touched p.shadow ≡ false → readonly_page p ≡ []
untouched-readonly_page p e = rw e refl

blank-readonly_page : (p : Page) → nonzero_words (clear_touched p.shadow) ≡ 0 → readonly_page p ≡ []
blank-readonly_page p e = ground (arith, e)

buffered-readonly_page :
    (p q : Page) (nonzero : ℕ)
    → p.address ≡ q.address
    → is_touched p.shadow ≡ true
    → nonzero_words (clear_touched p.shadow) ≢ 0
    → nonzero ≡ (
        if all_readonly (clear_touched p.shadow) then 0 else nonzero_words (clear_touched p.shadow))
    → buffered nonzero q ≡ readonly_page p
buffered-readonly_page p q nonzero same e ne h = ground (arith, same, e, ne, h)

end_page-Adds :
    (u : Platform) (p : Page) (s : Sender)
    → IsPlatform u
    → p.address ≢ 0
    → IsPaired p.shadow
    → IsBuffer s
    → Adds s (readonly_page p) (end_page u p s).0
unfolding end_page
end_page-Adds u p s hu ne paired h =
    let P : Sender × Page → Type 0 = λ r. Adds s (readonly_page p) r.0 in
    let cleared = clear_touched p.shadow in
    let page : Page = record p { shadow = (clear_read cleared).1 } in
    if-elim P (not (is_touched p.shadow))
      (λ e. rw (untouched-readonly_page p (ground (arith, e))) (Adds-nil s h))
      (λ e.
        if-elim P (u.is_zero_page cleared)
          (λ z. rw (blank-readonly_page p ((hu.tells_zero cleared).0 z)) (Adds-nil s h))
          (λ z.
            subst (λ ps. Adds s ps (forward_pair u (clear_read cleared).0 page check_required s).0)
              (buffered-readonly_page p page (clear_read cleared).0 refl (ground (arith, e))
                (λ w. ground (arith, z, (hu.tells_zero cleared).1 w))
                (ap (λ (r : ℕ × List ℕ). r.0)
                  (clear_read_lem cleared (clear_touched-IsPaired p.shadow paired))))
              (forward_pair-Adds u (clear_read cleared).0 page s ne h)))

-- A page whose address is not NULL and whose shadow has an even number of words.
pub record IsPage (p : Page) : Type 0 where
  pub placed : p.address ≢ 0
  pub paired : IsPaired p.shadow

pub end_pages-Adds :
    (u : Platform) (ps : List Page) (s : Sender)
    → IsPlatform u
    → All IsPage ps
    → IsBuffer s
    → Adds s (readonly_pages ps) (end_pages u ps s).0
unfolding end_pages
end_pages-Adds u [] s hu hp h = Adds-nil s h
end_pages-Adds u (p ∷ ps) s hu hp h =
    let first = end_page-Adds u p s hu hp.0.placed hp.0.paired h in
    Adds-trans s (end_page u p s).0 (end_pages u ps (end_page u p s).0).0 (readonly_page p)
      (readonly_pages ps) first (end_pages-Adds u ps (end_page u p s).0 hu hp.1 first.0)
