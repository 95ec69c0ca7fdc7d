-- ===== src/Streams.antt =====
-- internal/rpcruntime/stream.go, chunk_recv.go and chunk_policy.go: a stream's inbound messages, whole
-- or in fragments. A handler runs with the stream's lock held, so it is one step on the record; its one
-- error, ErrStreamConformance, poisons the connection and is `none`. A frame's budget, a reading of the
-- clock, is left out.
pub mod Send
pub mod Bounds
pub mod Train
pub mod RoundTrip
pub mod Refused
mod Tests
use styx.Base.{
  ℕ, zero, suc, ◌+◌, ◌-◌, Bool, true, false, not, ◌||◌, Option, none, some, List, [], ◌∷◌, ◌++◌,
  length, ltb, leb, ◌==◌, if◌then◌else◌, add64, sub64,
}
use styx.Base.Maybe.{◌>>=◌, ◌>>◌, guard}
use styx.Base.Bytes.{Bytes}

-- The kinds of stream frame that carry messages, and the half-close.
pub data FrameKind : Type 0 where
  frame_stream_msg : FrameKind
  frame_stream_chunk : FrameKind
  frame_stream_close : FrameKind

pub record Frame : Type 0 where
  pub call_id : ℕ
  pub kind : FrameKind
  pub service : ℕ
  pub method : ℕ
  pub payload : Bytes
  pub control : ℕ

-- All but `active` are uint32.
pub record ChunkPolicy : Type 0 where
  pub active : Bool
  pub ceiling : ℕ
  pub send_inline : ℕ
  pub recv_inline : ℕ

-- The zero ChunkPolicy.
abbrev pub no_chunking : ChunkPolicy
no_chunking = record { active = false; ceiling = 0; send_inline = 0; recv_inline = 0 }

-- The transports that a connection can have, with their limits where chunks can be carried.
pub data Carrier : Type 0 where
  shm_transport : (max_send_payload max_recv_payload : ℕ) → Carrier
  burst_transport : (inline_max inbound_inline_max : ℕ) → Carrier
  other_transport : Carrier

abbrev active_policy : ℕ → ℕ → ℕ → ChunkPolicy
active_policy ceiling send recv = record {
  active = true;
  ceiling = ceiling;
  send_inline = send;
  recv_inline = recv;
}

unfoldable carrier_policy : ℕ → Carrier → ChunkPolicy
carrier_policy ceiling (Carrier.shm_transport send recv) = active_policy ceiling send recv
carrier_policy ceiling (Carrier.burst_transport send recv) = active_policy ceiling send recv
carrier_policy ceiling Carrier.other_transport = no_chunking

unfoldable pub chunk_policy_for : Carrier → Bool → ℕ → ChunkPolicy
unfolding carrier_policy
chunk_policy_for tr active ceiling =
    if not active || ceiling == 0 then no_chunking else carrier_policy ceiling tr

pub record RecvItem : Type 0 where
  pub payload : Bytes
  pub credited : Bool

-- The inbound half of a stream. `recv_room` is the capacity of its channel of messages not yet read.
pub record Receiver : Type 0 where
  pub close_remote : Bool
  pub close_local : Bool
  pub expected_seq : ℕ
  pub recv_accum : Bytes
  pub recv_queue : List RecvItem
  pub recv_room : ℕ
  pub recv_closed : Bool
  pub completed : Bool

-- The sum is computed in uint64.
unfoldable pub accum_fits : ℕ → ℕ → ℕ → Bool
accum_fits accum fragment ceiling = leb (add64 accum fragment) ceiling

unfoldable pub on_stream_chunk : ChunkPolicy → Frame → Receiver → Option Receiver
unfolding accum_fits
on_stream_chunk policy f s = do
  guard (not s.close_remote)
  guard (f.control == s.expected_seq)
  let n = length f.payload
  guard (not (n == 0 || not (n == policy.recv_inline)))
  guard (accum_fits (length s.recv_accum) n policy.ceiling)
  some (record s { expected_seq = add64 s.expected_seq 1; recv_accum = s.recv_accum ++ f.payload })

-- The whole message; the caller takes the accumulation over.
unfoldable pub complete_recv_accum : ChunkPolicy → Bytes → Receiver → Option (Bytes × Receiver)
unfolding accum_fits
complete_recv_accum policy final s = do
  let n = length final
  guard (not (n == 0 || ltb policy.recv_inline n))
  guard (accum_fits (length s.recv_accum) n policy.ceiling)
  some (s.recv_accum ++ final, record s { recv_accum = [] })

-- A send on the channel that does not wait.
unfoldable pub enqueue : RecvItem → Receiver → Option Receiver
enqueue item s = do
  guard (ltb (length s.recv_queue) s.recv_room)
  some (record s { recv_queue = s.recv_queue ++ (item ∷ []) })

abbrev pub credited_item : Bytes → RecvItem
credited_item payload = record { payload = payload; credited = true }

unfoldable pub on_stream_msg : ChunkPolicy → Frame → Receiver → Option Receiver
unfolding complete_recv_accum enqueue
on_stream_msg policy f s = do
  guard (not s.close_remote)
  guard (f.control == s.expected_seq)
  whole ←
      (if ltb 0 (length s.recv_accum)
        then complete_recv_accum policy f.payload s
        else some (f.payload, s))
  enqueue (credited_item whole.0) (record whole.1 { expected_seq = add64 s.expected_seq 1 })

-- A payload that rides the half-close is delivered without credit.
unfoldable pub on_stream_close : Frame → Receiver → Option Receiver
unfolding enqueue
on_stream_close f s = do
  guard (not (ltb 0 (length s.recv_accum)))
  guard (not s.close_remote)
  guard (f.control == sub64 s.expected_seq 1)
  let closed = record s { close_remote = true }
  delivered ←
      (if ltb 0 (length f.payload)
        then enqueue (record { payload = f.payload; credited = false }) closed
        else some closed)
  some (record delivered { recv_closed = true; completed = delivered.close_local })

unfoldable pub discard_recv_accum : Receiver → Receiver
discard_recv_accum s = record s { recv_accum = [] }

-- The dispatch of one frame of a live stream, and of several.
unfoldable pub on_frame : ChunkPolicy → FrameKind → Frame → Receiver → Option Receiver
unfolding on_stream_msg on_stream_chunk on_stream_close
on_frame policy FrameKind.frame_stream_msg f s = on_stream_msg policy f s
on_frame policy FrameKind.frame_stream_chunk f s = on_stream_chunk policy f s
on_frame policy FrameKind.frame_stream_close f s = on_stream_close f s

unfoldable pub receive_all : ChunkPolicy → List Frame → Receiver → Option Receiver
unfolding on_frame
receive_all policy [] s = some s
receive_all policy (f ∷ fs) s = do next ← on_frame policy f.kind f s; receive_all policy fs next
