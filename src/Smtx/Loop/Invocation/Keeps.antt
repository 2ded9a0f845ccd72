-- ===== src/Smtx/Loop/Invocation/Keeps.antt =====
-- What the wait at the start of an iteration leaves alone.
use cos516_project.Prelude.{
  zero, suc, ℕ, ◌≡◌, if-elim, ◌==◌, ap, Bool, if◌then◌else◌, true, false, refl, subst,
}
use cos516_project.Smtx.Loop.{
  ◌>>=◌, ◌>>◌, update_ver_malloc, update_ver_separation_malloc, Memory, Packet, M, Outcome, ok,
  bind, found, reverse, put_queue, get_queue, queue_empty, queue_consume, load, log, nothing, Work,
  fault, aborted, out_of_fuel,
}
use cos516_project.Smtx.Loop.After.{After, After-bind, found-After}
use cos516_project.Smtx.Loop.Receive.{busy_wait, reverse_commit, is_applied}

-- A step leaves `ucvf_queues` alone.
abbrev pub Keeps {ℓ} : {A : Type ℓ} → Memory → A → Memory → Type 0
Keeps s a s' = s'.ucvf_queues ≡ s.ucvf_queues

-- A step that leaves the whole memory alone.
same-Keeps {ℓ} :
    {A : Type ℓ} (o : Outcome A) (s : Memory) → After (λ _ s'. s' ≡ s) o → After (Keeps s) o
unfolding After
same-Keeps (ok a s') s e = ap (λ m. m.ucvf_queues) e
same-Keeps fault s e = tt
same-Keeps aborted s e = tt
same-Keeps out_of_fuel s e = tt

Keeps-trans {ℓ} :
    {A : Type ℓ} (o : Outcome A) (s s' : Memory)
    → s'.ucvf_queues ≡ s.ucvf_queues
    → After (Keeps s') o
    → After (Keeps s) o
Keeps-trans o s s' e h = subst (λ l. After (λ _ s4. s4.ucvf_queues ≡ l) o) e h

-- Steps that leave it alone, one after the other.
Keeps-bind {ℓ κ} :
    {A : Type ℓ} {B : Type κ} (o : Outcome A) (k : A → M B) (s : Memory)
    → After (Keeps s) o
    → ((a : A) (s' : Memory) → After (Keeps s') (k a s'))
    → After (Keeps s) (bind o k)
Keeps-bind o k s h rest =
    After-bind (Keeps s) (Keeps s) o k h (λ a s' e. Keeps-trans (k a s') s s' e (rest a s'))

empty-Keeps : (wid : ℕ) (s : Memory) → After (λ _ s'. s' ≡ s) (queue_empty (reverse wid) s)
unfolding queue_empty After
empty-Keeps wid s =
    After-bind (λ _ s'. s' ≡ s) (λ _ s'. s' ≡ s) (found (get_queue (reverse wid) s) s) _
      (found-After (get_queue (reverse wid) s) s) (λ q s' same. same)

consume-Keeps : (wid : ℕ) (s : Memory) → After (Keeps s) (queue_consume (reverse wid) s)
unfolding queue_consume put_queue After
consume-Keeps wid s =
    After-bind (λ _ s'. s' ≡ s) (Keeps s) (found (get_queue (reverse wid) s) s) _
      (found-After (get_queue (reverse wid) s) s) (λ q s' same. ap (λ m. m.ucvf_queues) same)

log_if-Keeps : (b : Bool) (w : Work) (s : Memory) → After (Keeps s) (if b then log w s else ok tt s)
unfolding After
log_if-Keeps true w s = refl
log_if-Keeps false w s = refl

module _ (indeterminate : Memory → ℕ) where
  reverse_commit-Keeps :
      (wid my_stage : ℕ) (packet : Packet) (s : Memory)
      → After (Keeps s) (reverse_commit indeterminate wid my_stage packet s)
  unfolding reverse_commit After
  reverse_commit-Keeps wid my_stage packet s =
      let applied = is_applied indeterminate wid my_stage packet s in
      if-elim (λ (o : Outcome (Unit {0})). After (Keeps s) o) (packet.is_write == 0)
        (λ _. log_if-Keeps applied update_ver_malloc s)
        (λ _.
          if-elim (λ (o : Outcome (Unit {0})). After (Keeps s) o) (packet.is_write == 1)
            (λ _. log_if-Keeps applied update_ver_separation_malloc s) (λ _. tt))

  -- The loop consumes a packet only where the queue holds one.
  pub busy_wait-Keeps :
      (fuel wid my_stage : ℕ) (s : Memory)
      → After (Keeps s) (busy_wait indeterminate fuel wid my_stage s)
  unfolding busy_wait After load
  busy_wait-Keeps zero wid my_stage s = tt
  busy_wait-Keeps (suc fuel) wid my_stage s =
      Keeps-bind (queue_empty (reverse wid) s) _ s
        (same-Keeps (queue_empty (reverse wid) s) s (empty-Keeps wid s))
        (λ is_empty s0.
          elim is_empty
            as (λ b. After (Keeps s0) (
              elim b as (λ _. M (Unit {0})) [
                | true ↦ nothing
                | false ↦ (do
                  p ← queue_consume (reverse wid)
                  packet ← load p
                  reverse_commit indeterminate wid my_stage packet
                  busy_wait indeterminate fuel wid my_stage)
              ]
                s0)) [
                  | true ↦ refl
                  | false ↦
                      Keeps-bind (queue_consume (reverse wid) s0) _ s0 (consume-Keeps wid s0)
                        (λ p s1.
                          Keeps-bind (load p s1) _ s1
                            (same-Keeps (load p s1) s1 (found-After (s1.packets p) s1))
                            (λ packet s2.
                              Keeps-bind (reverse_commit indeterminate wid my_stage packet s2) _ s2
                                (reverse_commit-Keeps wid my_stage packet s2)
                                (λ _ s3. busy_wait-Keeps fuel wid my_stage s3)))
                ])
