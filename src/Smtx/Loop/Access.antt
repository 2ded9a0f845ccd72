-- ===== src/Smtx/Loop/Access.antt =====
-- Reading and writing the memory of the loop events.
use cos516_project.Prelude.{
  zero, suc, ℕ, ◌∷◌, ◌++◌, ◌≡◌, List, Option, [], ◌∙◌, some, get_elem?, ◌⊎◌, sym, set, append-nil,
  ap, refl, append_assoc, none, inl, inr, if-elim, ◌==◌, subst, length, ◌<◌,
}
use cos516_project.Smtx.Queue.{Queue, consume, produce}
use cos516_project.Smtx.Queue.Refine.{Represents, consume-Represents, produce-Represents}
use cos516_project.Smtx.Loop.{
  Memory, Packet, ok, Work, QueueRef, uncommitted, aux, reverse, get_queue, put_queue,
  queue_consume, join, entry, update_entry, clear_ptr, queue_size, release, queue_produce,
}

pub get_elem?-set_found :
    {A : Type 0} (xs : List A) (i : ℕ) (a v : A)
    → get_elem? xs i ≡ some a
    → get_elem? (set xs i v) i ≡ some v
get_elem?-set_found [] i a v e = cc
get_elem?-set_found (x ∷ xs) zero a v e = refl
get_elem?-set_found (x ∷ xs) (suc i) a v e = get_elem?-set_found xs i a v e

update_entry-found :
    {A : Type 0} (table : List (List A)) (i j : ℕ) (row : Option (List A)) (a v : A)
    → get_elem? table i ≡ row
    → entry row j ≡ some a
    → entry (get_elem? (update_entry table i j v) i) j ≡ some v
update_entry-found table i j none a v e0 e1 = cc
update_entry-found table i j (some row) a v e0 e1 =
    rw (entry, e0)
      (rw (get_elem?-set_found table i row (set row j v) e0) (get_elem?-set_found row j a v e1))

join-some : (o : Option (Option Queue)) (q : Queue) → join o ≡ some q → o ≡ some (some q)
join-some none q e = cc
join-some (some o) q e = ap some e

-- A queue that has been written is read back.
get_queue-put_queue :
    (ref : QueueRef) (q q' : Queue) (s : Memory)
    → get_queue ref s ≡ some q
    → get_queue ref (put_queue ref q' s) ≡ some q'
unfolding get_queue put_queue
get_queue-put_queue (uncommitted i j) q q' s e =
    let there = join-some (entry (get_elem? s.ucvf_queues i) j) q e in
    rw
      (update_entry-found s.ucvf_queues i j (get_elem? s.ucvf_queues i) (some q) (some q') refl
        there)
      refl
get_queue-put_queue (aux i j) q q' s e =
    update_entry-found s.queues i j (get_elem? s.queues i) q q' refl e
get_queue-put_queue (reverse i) q q' s e = get_elem?-set_found s.reverse_commit_queues i q q' e

-- The queue at `ref` holds the values `xs`.
unfoldable pub Queued : QueueRef → Memory → List ℕ → Type 0
Queued ref s xs = (q : Queue) × (get_queue ref s ≡ some q) × Represents 8192 q xs

-- What a step leaves of the packets: their addresses, and their fields, but for `ptr`, which may
-- have become NULL.
unfoldable pub Lasts : Option Packet → Option Packet → Type 0
Lasts before after = (after ≡ before) ⊎ (after ≡ clear_ptr before)

Lasts-trans : (a b c : Option Packet) → Lasts a b → Lasts b c → Lasts a c
unfolding Lasts
Lasts-trans a b c (inl e) (inl e') = inl (e' ∙ e)
Lasts-trans a b c (inl e) (inr e') = inr (e' ∙ ap clear_ptr e)
Lasts-trans a b c (inr e) (inl e') = inr (e' ∙ e)
Lasts-trans none b c (inr e) (inr e') = inr (e' ∙ ap clear_ptr e)
Lasts-trans (some a) b c (inr e) (inr e') = inr (e' ∙ ap clear_ptr e)

-- From `s` to `s'` the work `w` has been done.
pub record Continues (s s' : Memory) (w : List Work) : Type 0 where
  pub work : s'.work ≡ s.work ++ w
  pub lasts : (a : ℕ) → Lasts (s.packets a) (s'.packets a)
  pub is_ver : s'.is_ver ≡ s.is_ver

-- A step that leaves the work, the packets and the heaps alone.
pub same-Continues :
    (s s' : Memory)
    → s'.work ≡ s.work
    → s'.packets ≡ s.packets
    → s'.is_ver ≡ s.is_ver
    → Continues s s' []
unfolding Lasts
same-Continues s s' e0 e1 e2 = record {
  work = e0 ∙ sym (append-nil s.work);
  lasts = λ a. inl (ap (λ f. f a) e1);
  is_ver = e2;
}

pub Continues-trans :
    (s s' s'' : Memory) (w w' : List Work)
    → Continues s s' w
    → Continues s' s'' w'
    → Continues s s'' (w ++ w')
Continues-trans s s' s'' w w' k k' = record {
  work = k'.work ∙ ap (λ l. l ++ w') k.work ∙ append_assoc s.work w w';
  lasts = λ a. Lasts-trans (s.packets a) (s'.packets a) (s''.packets a) (k.lasts a) (k'.lasts a);
  is_ver = k'.is_ver ∙ k.is_ver;
}

put_queue-Continues : (ref : QueueRef) (q : Queue) (s : Memory) → Continues s (put_queue ref q s) []
unfolding put_queue
put_queue-Continues (uncommitted i j) q s =
    same-Continues s (put_queue (uncommitted i j) q s) refl refl refl
put_queue-Continues (aux i j) q s = same-Continues s (put_queue (aux i j) q s) refl refl refl
put_queue-Continues (reverse i) q s = same-Continues s (put_queue (reverse i) q s) refl refl refl

-- Consuming from a queue that is not empty.
pub queue_consume-Queued :
    (ref : QueueRef) (s : Memory) (x : ℕ) (xs : List ℕ)
    → Queued ref s (x ∷ xs)
    → (s' : Memory) × (queue_consume ref s ≡ ok x s') × Queued ref s' xs × Continues s s' []
unfolding Queued queue_consume
queue_consume-Queued ref s x xs (q, there, r) =
    let (first, rest) = consume-Represents 8192 x xs q r in
    let s' = put_queue ref (consume queue_size q).1 s in
    (
      s',
      rw (there, first) refl,
      ((consume queue_size q).1, get_queue-put_queue ref q (consume queue_size q).1 s there, rest),
      put_queue-Continues ref (consume queue_size q).1 s,
    )

-- The queues do not see the work or the packets.
pub get_queue-record :
    (ref : QueueRef) (s : Memory) (w : List Work) (packets : ℕ → Option Packet)
    → get_queue ref (record s { work = w; packets = packets }) ≡ get_queue ref s
unfolding get_queue
get_queue-record (uncommitted i j) s w packets = refl
get_queue-record (aux i j) s w packets = refl
get_queue-record (reverse i) s w packets = refl

pub release-Queued :
    (ref : QueueRef) (s : Memory) (p : ℕ) (xs : List ℕ)
    → Queued ref s xs
    → Queued ref (release p s) xs
unfolding Queued release
release-Queued ref s p xs (q, there, r) = (q, get_queue-record ref s s.work _ ∙ there, r)

pub release-Continues : (s : Memory) (p : ℕ) → Continues s (release p s) []
unfolding release Lasts
release-Continues s p = record {
  work = sym (append-nil s.work);
  lasts = λ a.
      if-elim (λ (o : Option Packet). (o ≡ s.packets a) ⊎ (o ≡ clear_ptr (s.packets a))) (a == p)
        (λ _. inr refl) (λ _. inl refl);
  is_ver = refl;
}

pub Continues-last :
    (s s' s'' : Memory) (w : List Work) → Continues s s' w → Continues s' s'' [] → Continues s s'' w
Continues-last s s' s'' w k k' =
    subst (λ l. Continues s s'' l) (append-nil w) (Continues-trans s s' s'' w [] k k')

-- Producing into a queue that is not full.
pub queue_produce-Queued :
    (ref : QueueRef) (s : Memory) (x : ℕ) (xs : List ℕ)
    → length xs < 8192
    → Queued ref s xs
    → (s' : Memory) × (queue_produce ref x s ≡ ok tt s')
      × Queued ref s' (xs ++ x ∷ [])
      × Continues s s' []
unfolding Queued queue_produce
queue_produce-Queued ref s x xs room (q, there, r) =
    let q' = produce queue_size q x in
    (
      put_queue ref q' s,
      rw there refl,
      (q', get_queue-put_queue ref q q' s there, produce-Represents 8192 x q xs r room),
      put_queue-Continues ref q' s,
    )

put_queue-packets :
    (ref : QueueRef) (q : Queue) (s : Memory) → (put_queue ref q s).packets ≡ s.packets
unfolding put_queue
put_queue-packets (uncommitted i j) q s = refl
put_queue-packets (aux i j) q s = refl
put_queue-packets (reverse i) q s = refl

-- Consuming leaves the packets alone.
pub queue_consume-packets :
    (ref : QueueRef) (s s' : Memory) (x : ℕ) (o : Option Queue)
    → get_queue ref s ≡ o
    → queue_consume ref s ≡ ok x s'
    → s'.packets ≡ s.packets
unfolding queue_consume
queue_consume-packets ref s s' x none there e = let e' = rw there at e in cc
queue_consume-packets ref s s' x (some q) there e =
    let e' = rw there at e in
    let same : put_queue ref (consume queue_size q).1 s ≡ s' = cc in
    ap (λ m. m.packets) (sym same) ∙ put_queue-packets ref (consume queue_size q).1 s
