-- ===== src/Smtx/Loop/Messages.antt =====
-- What begin_iter makes of the packets that stand in a queue.
use cos516_project.Prelude.{
  ℕ, ◌∷◌, List, ◌≡◌, [], some, ◌≢◌, ◌<◌, replicate, inl, ◌∙◌, inr, ap, ◌++◌, refl, ◌==◌, true,
  arith,
}
use cos516_project.Smtx.Loop.{Memory, Packet, Work, update_page, clear_ptr, release}
use cos516_project.Smtx.Loop.Access.{Lasts, Continues}

-- The packets of one message, by their addresses.
pub data Message : Type 0 where
  words : ℕ → ℕ → Message
  ro_page : ℕ → Message
  page : ℕ → ℕ → Message
  instances : ℕ → Message
  chunk : ℕ → Message
  unknown : ℕ → Message

unfoldable pub header : Message → ℕ
header (words p q) = p
header (ro_page p) = p
header (page p q) = p
header (instances p) = p
header (chunk p) = p
header (unknown p) = p

unfoldable pub shadows : Message → List ℕ
shadows (words p q) = q ∷ []
shadows (page p q) = q ∷ []
shadows (ro_page p) = []
shadows (instances p) = []
shadows (chunk p) = []
shadows (unknown p) = []

-- What the fields of the first packet of a message say.
unfoldable pub Is : Message → Packet → Type 0
Is (words p q) packet = packet.type ≡ 0
Is (ro_page p) packet = (packet.type ≡ 1) × (packet.is_write ≡ 2)
Is (page p q) packet = (packet.type ≡ 1) × (packet.is_write ≢ 2)
Is (instances p) packet = (packet.type ≡ 3) × (packet.size ≡ 0)
Is (chunk p) packet = (packet.type ≡ 3) × (packet.size ≢ 0)
Is (unknown p) packet = 3 < packet.type

unfoldable pub Stands : Memory → Message → Type 0
Stands s m = (packet : Packet) × (s.packets (header m) ≡ some packet) × Is m packet

-- What the receiver does on a message, `malloc_work` being its work on one instance.
unfoldable pub work_of : Work → Message → List Work
work_of malloc_work (page p q) = update_page ∷ []
work_of malloc_work (instances p) = replicate 256 malloc_work
work_of malloc_work (words p q) = []
work_of malloc_work (ro_page p) = []
work_of malloc_work (chunk p) = []
work_of malloc_work (unknown p) = []

Is-clear_ptr : (m : Message) (packet : Packet) → Is m packet → Is m (record packet { ptr = 0 })
unfolding Is
Is-clear_ptr (words p q) packet h = h
Is-clear_ptr (ro_page p) packet h = h
Is-clear_ptr (page p q) packet h = h
Is-clear_ptr (instances p) packet h = h
Is-clear_ptr (chunk p) packet h = h
Is-clear_ptr (unknown p) packet h = h

pub Stands-Continues :
    (s s' : Memory) (w : List Work) (m : Message) → Continues s s' w → Stands s m → Stands s' m
unfolding Stands Lasts
Stands-Continues s s' w m k (packet, there, is) = elim (k.lasts (header m)) [
  | inl same ↦ (packet, same ∙ there, is)
  | inr cleared ↦
      (record packet { ptr = 0 }, cleared ∙ ap clear_ptr there, Is-clear_ptr m packet is)
]

-- The packet at an address is marked consumed.
unfoldable pub Released : Memory → ℕ → Type 0
Released s a = (packet : Packet) × (s.packets a ≡ some packet) × (packet.ptr ≡ 0)

pub Released-Continues :
    (s s' : Memory) (w : List Work) (a : ℕ) → Continues s s' w → Released s a → Released s' a
unfolding Released Lasts
Released-Continues s s' w a k (packet, there, null) = elim (k.lasts a) [
  | inl same ↦ (packet, same ∙ there, null)
  | inr cleared ↦ (record packet { ptr = 0 }, cleared ∙ ap clear_ptr there, refl)
]

pub release-Released :
    (s : Memory) (a : ℕ) (packet : Packet) → s.packets a ≡ some packet → Released (release a s) a
unfolding Released release
release-Released s a packet there =
    let self : (a == a) ≡ true = ground arith in
    (record packet { ptr = 0 }, rw (self, there) refl, refl)

-- A run of messages and the DONE packet that ends it, as they stand in a queue before `rest`.
unfoldable pub stream : List Message → ℕ → List ℕ → List ℕ
stream [] d rest = d ∷ rest
stream (m ∷ ms) d rest = header m ∷ shadows m ++ stream ms d rest

unfoldable pub work_on : Work → List Message → List Work
work_on malloc_work [] = []
work_on malloc_work (m ∷ ms) = work_of malloc_work m ++ work_on malloc_work ms

unfoldable pub headers : List Message → ℕ → List ℕ
headers [] d = d ∷ []
headers (m ∷ ms) d = header m ∷ headers ms d

unfoldable pub IsDone : Memory → ℕ → Type 0
IsDone s d = (packet : Packet) × (s.packets d ≡ some packet) × (packet.type ≡ 2)

pub IsDone-Continues :
    (s s' : Memory) (w : List Work) (d : ℕ) → Continues s s' w → IsDone s d → IsDone s' d
unfolding IsDone Lasts
IsDone-Continues s s' w d k (packet, there, is) = elim (k.lasts d) [
  | inl same ↦ (packet, same ∙ there, is)
  | inr cleared ↦ (record packet { ptr = 0 }, cleared ∙ ap clear_ptr there, is)
]
