-- ===== src/Ring/Interleave.antt =====
-- Push, Peek and Advance of internal/ring/ring.go as separate loads and stores, run by one producer
-- and one consumer in any order. The bytes of a slot are not stored at once: while the producer
-- writes, the slot may hold anything (`tear`).
pub mod Invariant
pub mod Preserve
pub mod Safety
use styx.Base.{ℕ, ◌+◌, ◌≤◌, ◌<◌, ◌≡◌, List, [], ◌∷◌, ◌++◌, add64, sub64, get_or, set}
use styx.Descriptor.{Descriptor, zero_descriptor}
use styx.Ring.{Ring, slot_of}

-- Where the producer stands in Push, with its local variables.
pub data Producer : Type 0 where
  outside : Producer
  has_head : (d : Descriptor) (h : ℕ) → Producer
  has_both : (d : Descriptor) (h t : ℕ) → Producer
  writing : (d : Descriptor) (t : ℕ) → Producer
  publishing : (d : Descriptor) (t : ℕ) → Producer
  got_full : Producer
  got_corrupt : Producer

-- Where the consumer stands: Peek, then Advance after an ok.
pub data Consumer : Type 0 where
  away : Consumer
  saw_head : (h : ℕ) → Consumer
  saw_both : (h t : ℕ) → Consumer
  holding : (d : Descriptor) → Consumer
  releasing : (d : Descriptor) (h : ℕ) → Consumer
  saw_corrupt : Consumer

-- `sent` and `received` record the completed pushes and advances.
pub record System : Type 0 where
  pub ring : Ring
  pub producer : Producer
  pub consumer : Consumer
  pub sent : List Descriptor
  pub received : List Descriptor

-- The slot of sequence number `t` holds `d`.
abbrev pub write_slot : Ring → ℕ → Descriptor → Ring
write_slot r t d = record r { slots = set r.slots (slot_of r t) d }

abbrev pub read_slot : Ring → ℕ → Descriptor
read_slot r h = get_or r.slots (slot_of r h) zero_descriptor

pub data Step (s : System) : System → Type 0 where
  -- Push
  load_head :
      (d : Descriptor)
      → s.producer ≡ outside
      → Step s (record s { producer = has_head d s.ring.head })
  load_tail :
      (d : Descriptor) (h : ℕ)
      → s.producer ≡ has_head d h
      → Step s (record s { producer = has_both d h s.ring.tail })
  refuse_corrupt :
      (d : Descriptor) (h t : ℕ)
      → s.producer ≡ has_both d h t
      → s.ring.capacity < sub64 t h
      → Step s (record s { producer = got_corrupt })
  refuse_full :
      (d : Descriptor) (h t : ℕ)
      → s.producer ≡ has_both d h t
      → sub64 t h ≡ s.ring.capacity
      → Step s (record s { producer = got_full })
  begin_write :
      (d : Descriptor) (h t : ℕ)
      → s.producer ≡ has_both d h t
      → sub64 t h < s.ring.capacity
      → Step s (record s { producer = writing d t })
  tear :
      (d g : Descriptor) (t : ℕ)
      → s.producer ≡ writing d t
      → Step s (record s { ring = write_slot s.ring t g })
  finish_write :
      (d : Descriptor) (t : ℕ)
      → s.producer ≡ writing d t
      → Step s (record s { ring = write_slot s.ring t d; producer = publishing d t })
  store_tail :
      (d : Descriptor) (t : ℕ)
      → s.producer ≡ publishing d t
      → Step s (record s {
        ring = record (s.ring) { tail = add64 t 1 };
        producer = outside;
        sent = s.sent ++ (d ∷ []);
      })
  return_full : s.producer ≡ got_full → Step s (record s { producer = outside })
  -- Peek
  peek_head : s.consumer ≡ away → Step s (record s { consumer = saw_head s.ring.head })
  peek_tail :
      (h : ℕ) → s.consumer ≡ saw_head h → Step s (record s { consumer = saw_both h s.ring.tail })
  find_corrupt :
      (h t : ℕ)
      → s.consumer ≡ saw_both h t
      → s.ring.capacity < sub64 t h
      → Step s (record s { consumer = saw_corrupt })
  find_empty :
      (h t : ℕ) → s.consumer ≡ saw_both h t → sub64 t h ≡ 0 → Step s (record s { consumer = away })
  find_slot :
      (h t : ℕ)
      → s.consumer ≡ saw_both h t
      → 0 < sub64 t h
      → sub64 t h ≤ s.ring.capacity
      → Step s (record s { consumer = holding (read_slot s.ring h) })
  -- The caller of Peek may return without Advance.
  look_away : (d : Descriptor) → s.consumer ≡ holding d → Step s (record s { consumer = away })
  -- Advance
  advance_load :
      (d : Descriptor)
      → s.consumer ≡ holding d
      → Step s (record s { consumer = releasing d s.ring.head })
  advance_store :
      (d : Descriptor) (h : ℕ)
      → s.consumer ≡ releasing d h
      → Step s (record s {
        ring = record (s.ring) { head = add64 h 1 };
        consumer = away;
        received = s.received ++ (d ∷ []);
      })

-- Both sides idle, over a ring that may already hold descriptors.
abbrev pub start : Ring → List Descriptor → System
start r held = record { ring = r; producer = outside; consumer = away; sent = held; received = [] }

pub data Reach (s : System) : System → Type 0 where
  here : Reach s s
  next : {t u : System} → Reach s t → Step t u → Reach s u
