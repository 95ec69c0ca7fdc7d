-- ===== src/Streams/Train.antt =====
-- A fragment train is received as the one message that was sent.
use styx.Base.{
  ℕ, zero, suc, ◌+◌, ◌-◌, ◌*◌, ◌≤◌, ◌<◌, ◌≡◌, refl, ap, ◌∙◌, arith, Bool, true, false, not, ltb,
  leb, ◌==◌, some, List, [], ◌∷◌, ◌++◌, length, take, drop, length-take, length-drop,
  take-append-drop, append_assoc, length-append, u32_mod, add64, Bool-cases, inl, inr,
}
use mathlib.Core.Path.{subst}
use styx.Base.Bytes.{Bytes}
use styx.Streams.{
  Frame, FrameKind, ChunkPolicy, Receiver, accum_fits, on_stream_chunk, complete_recv_accum,
  enqueue, credited_item, on_stream_msg, on_frame, receive_all,
}
use styx.Streams.Send.{Answer, Sender, SendOutcome, frame_of, put, reserve_seq, send_fragments}

-- The receiver with one more message.
abbrev pub delivered : Receiver → ℕ → Bytes → Receiver
delivered r seq message = record r {
  expected_seq = add64 seq 1;
  recv_accum = [];
  recv_queue = r.recv_queue ++ (credited_item message ∷ []);
}

-- What a complete send does: it returns `sent`, with no more credit taken, and the frames that it has put on the wire give the
-- receiver the message, and nothing else.
pub record Delivers (policy : ChunkPolicy) (out : SendOutcome × Sender) (s : Sender) (r : Receiver)
    (message : Bytes) : Type 0 where
  pub outcome : out.0 ≡ SendOutcome.sent
  pub credit_same : out.1.credit ≡ s.credit
  pub frames : List Frame
  pub wired : out.1.wire ≡ s.wire ++ frames
  pub received : receive_all policy frames r ≡ some (delivered r out.1.send_seq message)

-- The answers accept `n` fragments, each after any number of backpressure rejections.
abbrev pub Serves : ℕ → List Answer → Type 0
Serves zero answers = Unit
Serves (suc n) [] = ⊥
Serves (suc n) (Answer.accepted ∷ answers) = Serves n answers
Serves (suc n) (Answer.backpressure ∷ answers) = Serves (suc n) answers
Serves (suc n) (a ∷ answers) = ⊥

-- The receiver after a chunk.
abbrev pub chunk_taken : Receiver → Bytes → Receiver
chunk_taken r frag = record r {
  expected_seq = add64 r.expected_seq 1;
  recv_accum = r.recv_accum ++ frag;
}

pub chunk_received :
    (policy : ChunkPolicy) (f : Frame) (r : Receiver)
    → r.close_remote ≡ false
    → f.control ≡ r.expected_seq
    → 0 < length f.payload
    → length f.payload ≡ policy.recv_inline
    → length r.recv_accum + length f.payload ≤ policy.ceiling
    → policy.ceiling < u32_mod
    → on_stream_chunk policy f r ≡ some (chunk_taken r f.payload)
unfolding on_stream_chunk accum_fits
chunk_received policy f r live ordered pos full fits word = rw live (ground arith)

completed :
    (policy : ChunkPolicy) (final : Bytes) (r : Receiver)
    → 0 < length final
    → length final ≤ policy.recv_inline
    → length r.recv_accum + length final ≤ policy.ceiling
    → policy.ceiling < u32_mod
    → complete_recv_accum policy final r
      ≡ some (r.recv_accum ++ final, record r { recv_accum = [] })
unfolding complete_recv_accum accum_fits
completed policy final r pos short fits word = ground arith

pub last_received :
    (policy : ChunkPolicy) (f : Frame) (r : Receiver)
    → r.close_remote ≡ false
    → f.control ≡ r.expected_seq
    → 0 < length f.payload
    → length f.payload ≤ policy.recv_inline
    → 0 < length r.recv_accum
    → length r.recv_accum + length f.payload ≤ policy.ceiling
    → policy.ceiling < u32_mod
    → length r.recv_queue < r.recv_room
    → on_stream_msg policy f r ≡ some (delivered r r.expected_seq (r.recv_accum ++ f.payload))
unfolding on_stream_msg enqueue
last_received policy f r live ordered pos short pending fits word room =
    let whole = completed policy f.payload r pos short fits word in
    let waiting : ltb 0 (length r.recv_accum) ≡ true = ground arith in
    let in_order : (f.control == r.expected_seq) ≡ true = ground arith in
    let free : ltb (length r.recv_queue) r.recv_room ≡ true = ground arith in
    let not_closed : not r.close_remote ≡ true = ap not live in
    rw (not_closed, in_order, waiting, whole, free)

module _ (policy : ChunkPolicy) (pos : 0 < policy.recv_inline)
    (word : policy.ceiling < u32_mod) where
  -- A train goes on after one fragment.
  pub chunk_then :
      (out : SendOutcome × Sender) (s : Sender) (r : Receiver) (frag rest : Bytes)
      → r.close_remote ≡ false
      → s.send_seq ≡ r.expected_seq
      → length frag ≡ policy.recv_inline
      → length r.recv_accum + length frag ≤ policy.ceiling
      → Delivers policy out
          (reserve_seq (put FrameKind.frame_stream_chunk frag s))
          (chunk_taken r frag)
          ((r.recv_accum ++ frag) ++ rest)
      → Delivers policy out s r (r.recv_accum ++ (frag ++ rest))
  unfolding receive_all on_frame put reserve_seq
  chunk_then out s r frag rest live same full fits d =
      let first = frame_of s FrameKind.frame_stream_chunk frag in
      let taken = chunk_received policy first r live same (omega arith) full fits word in
      record {
        outcome = d.outcome;
        credit_same = d.credit_same;
        frames = first ∷ d.frames;
        wired = d.wired ∙ append_assoc s.wire (first ∷ []) d.frames;
        received = rw taken (rw (← append_assoc r.recv_accum frag rest) d.received);
      }

  pub send_fragments-Delivers :
      (n : ℕ) (answers : List Answer) (late : Bool) (rest : Bytes) (s : Sender) (r : Receiver)
      → Serves n answers
      → 0 < length rest
      → length rest ≤ n * policy.recv_inline
      → r.close_remote ≡ false
      → s.send_seq ≡ r.expected_seq
      → 0 < length r.recv_accum
      → length r.recv_accum + length rest ≤ policy.ceiling
      → length r.recv_queue < r.recv_room
      → Delivers policy
          (send_fragments policy.recv_inline late rest answers s)
          s
          r
          (r.recv_accum ++ rest)
  unfolding send_fragments receive_all on_frame put reserve_seq
  send_fragments-Delivers zero answers late rest s r serves some_left few live same pending fits
        room =
      absurd (omega arith)
  send_fragments-Delivers (suc n) [] late rest s r serves some_left few live same pending fits
        room =
      absurd serves
  send_fragments-Delivers (suc n) (Answer.backpressure ∷ answers) late rest s r serves some_left few
        live same pending fits room =
      send_fragments-Delivers (suc n) answers late rest s r serves some_left few live same pending
        fits room
  send_fragments-Delivers (suc n) (Answer.accepted ∷ answers) late rest s r serves some_left few
        live same pending fits room =
      elim (Bool-cases (leb (length rest) policy.recv_inline)) [
        | inl final ↦ rw final (record {
          outcome = refl;
          credit_same = refl;
          frames = frame_of s FrameKind.frame_stream_msg rest ∷ [];
          wired = refl;
          received = rw same (
              rw (
                last_received policy
                  (frame_of (record s { send_seq = r.expected_seq }) FrameKind.frame_stream_msg
                    rest)
                  r live refl some_left (ground arith) pending fits word room));
        })
        | inr more ↦
            let long : policy.recv_inline < length rest = ground arith in
            let cut : length (take policy.recv_inline rest) ≡ policy.recv_inline =
              omega (arith, length-take policy.recv_inline rest) in
            let left : length (drop policy.recv_inline rest) ≡ length rest - policy.recv_inline =
              length-drop policy.recv_inline rest in
            let accum : length (r.recv_accum ++ take policy.recv_inline rest)
                ≡ length r.recv_accum + policy.recv_inline =
              omega (arith, cut, length-append r.recv_accum (take policy.recv_inline rest)) in
            rw more (
              subst
                (λ (message : Bytes).
                  Delivers policy
                    (send_fragments policy.recv_inline late (drop policy.recv_inline rest) answers (
                      reserve_seq
                        (put FrameKind.frame_stream_chunk (take policy.recv_inline rest) s)))
                    s r (r.recv_accum ++ message))
                (take-append-drop policy.recv_inline rest)
                (chunk_then _ s r (take policy.recv_inline rest) (drop policy.recv_inline rest) live
                  same cut (omega arith)
                  (send_fragments-Delivers n answers late (drop policy.recv_inline rest)
                    (reserve_seq
                      (put FrameKind.frame_stream_chunk (take policy.recv_inline rest) s))
                    (chunk_taken r (take policy.recv_inline rest)) serves (omega arith)
                    (omega arith) live (ap (λ (x : ℕ). add64 x 1) same) (omega arith) (omega arith)
                    room)))
      ]
  send_fragments-Delivers (suc n) (Answer.payload_too_large ∷ answers) late rest s r serves
        some_left few live same pending fits room =
      absurd serves
  send_fragments-Delivers (suc n) (Answer.unimplemented_kind ∷ answers) late rest s r serves
        some_left few live same pending fits room =
      absurd serves
  send_fragments-Delivers (suc n) (Answer.canceled ∷ answers) late rest s r serves some_left few
        live same pending fits room =
      absurd serves
  send_fragments-Delivers (suc n) (Answer.deadline_exceeded ∷ answers) late rest s r serves
        some_left few live same pending fits room =
      absurd serves
  send_fragments-Delivers (suc n) (Answer.closed ∷ answers) late rest s r serves some_left few live
        same pending fits room =
      absurd serves
  send_fragments-Delivers (suc n) (Answer.poisoned ∷ answers) late rest s r serves some_left few
        live same pending fits room =
      absurd serves
  send_fragments-Delivers (suc n) (Answer.other_error ∷ answers) late rest s r serves some_left few
        live same pending fits room =
      absurd serves
