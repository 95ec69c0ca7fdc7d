-- ===== src/Streams/RoundTrip.antt =====
-- SendMsg on one side and the inbound handlers on the other: a message arrives whole.
use mathlib.Core.Path.{subst}
use styx.Base.{
  ℕ, suc, ◌+◌, ◌-◌, ◌*◌, ◌≤◌, ◌<◌, ◌≡◌, ◌⊎◌, refl, ap, sym, ◌∙◌, arith, Bool, true, false, not,
  ◌&&◌, ltb, leb, ◌==◌, Option, some, none, List, [], ◌∷◌, ◌++◌, length, take, drop, length-take,
  length-drop, length-append, take-append-drop, u32_mod, add64, if-true, if-false, Bool-cases, inl,
  inr,
}
use styx.Base.Bytes.{Bytes}
use styx.Credit.{reserve}
use styx.Streams.{
  FrameKind, ChunkPolicy, Receiver, credited_item, enqueue, on_stream_msg, on_frame, receive_all,
}
use styx.Streams.Send.{
  Answer, Sender, SendOutcome, Terminal, frame_of, put, reserve_seq, send_fragments, send_train,
  send_chunked, send_whole, send_msg, is_live,
}
use styx.Streams.Train.{
  Delivers, Serves, delivered, chunk_taken, chunk_then, send_fragments-Delivers,
}

-- A live stream with credit, and a peer that has received all it sent before.
pub record Ready (s : Sender) (r : Receiver) : Type 0 where
  pub live : s.terminal ≡ none
  pub unclosed : s.send_closed ≡ false
  pub credited : (reserve s.credit).0 ≡ true
  pub unclosed_peer : r.close_remote ≡ false
  pub in_order : add64 s.send_seq 1 ≡ r.expected_seq
  pub empty : r.recv_accum ≡ []
  pub room : length r.recv_queue < r.recv_room

-- The sender's limits are the receiver's: the inline limit of the direction, and the ceiling.
pub record Matched (send recv : ChunkPolicy) : Type 0 where
  pub active : send.active ≡ true
  pub inline_same : send.send_inline ≡ recv.recv_inline
  pub ceiling_same : send.ceiling ≡ recv.ceiling
  pub positive : 0 < recv.recv_inline
  pub word : recv.ceiling < u32_mod

-- The stream after its reservations.
abbrev admitted : Sender → Sender
admitted s = reserve_seq (record s { credit = (reserve s.credit).1 })

module _ (recv : ChunkPolicy) (pos : 0 < recv.recv_inline) (word : recv.ceiling < u32_mod) where
  -- The one-frame path.
  send_whole-Delivers :
      (answers : List Answer) (late : Bool) (payload : Bytes) (s : Sender) (r : Receiver)
      → r.close_remote ≡ false
      → s.send_seq ≡ r.expected_seq
      → r.recv_accum ≡ []
      → length r.recv_queue < r.recv_room
      → Delivers recv (send_whole late payload (Answer.accepted ∷ answers) s) s r payload
  unfolding send_whole put receive_all on_frame on_stream_msg enqueue
  send_whole-Delivers answers late payload s r live same empty room =
      let not_closed : not r.close_remote ≡ true = ap not live in
      let ordered : (s.send_seq == r.expected_seq) ≡ true = ground arith in
      let none_pending : ltb 0 (length r.recv_accum) ≡ false =
        ap (λ (x : Bytes). ltb 0 (length x)) empty in
      let free : ltb (length r.recv_queue) r.recv_room ≡ true = ground arith in
      record {
        outcome = refl;
        credit_same = refl;
        frames = frame_of s FrameKind.frame_stream_msg payload ∷ [];
        wired = refl;
        received =
            rw (not_closed, ordered, none_pending, free)
              (ap
                  (λ (pending : Bytes). some (record r {
                    expected_seq = add64 r.expected_seq 1;
                    recv_accum = pending;
                    recv_queue = r.recv_queue ++ (credited_item payload ∷ []);
                  }))
                  empty
                ∙ ap (λ (seq : ℕ). some (delivered r seq payload)) (sym same));
      }

  send_train-Delivers :
      (n : ℕ) (answers : List Answer) (late : Bool) (payload : Bytes) (s : Sender) (r : Receiver)
      → Serves n answers
      → recv.recv_inline < length payload
      → length payload ≤ suc n * recv.recv_inline
      → length payload ≤ recv.ceiling
      → r.close_remote ≡ false
      → s.send_seq ≡ r.expected_seq
      → r.recv_accum ≡ []
      → length r.recv_queue < r.recv_room
      → Delivers recv
          (send_train recv.recv_inline late payload (Answer.accepted ∷ answers) s)
          s
          r
          payload
  unfolding send_train put reserve_seq
  send_train-Delivers n answers late payload s r serves long few most live same empty room =
      let more : leb (length payload) recv.recv_inline ≡ false = ground arith in
      let head : Bytes = take recv.recv_inline payload in
      let tail : Bytes = drop recv.recv_inline payload in
      let none_pending : length r.recv_accum ≡ 0 = ap (λ (x : Bytes). length x) empty in
      let cut : length head ≡ recv.recv_inline =
        omega (arith, length-take recv.recv_inline payload) in
      let left : length tail ≡ length payload - recv.recv_inline =
        length-drop recv.recv_inline payload in
      let accum : length (r.recv_accum ++ head) ≡ recv.recv_inline =
        omega (arith, cut, none_pending, length-append r.recv_accum head) in
      let whole : r.recv_accum ++ (head ++ tail) ≡ payload =
        ap (λ (x : Bytes). x ++ (head ++ tail)) empty ∙ take-append-drop recv.recv_inline payload in
      rw more (
        subst
          (λ (message : Bytes).
            Delivers recv
              (send_fragments recv.recv_inline late tail answers
                (reserve_seq (put FrameKind.frame_stream_chunk head s)))
              s r message)
          whole
          (chunk_then recv pos word _ s r head tail live same cut (omega arith) (
            send_fragments-Delivers recv pos word n answers late tail
              (reserve_seq (put FrameKind.frame_stream_chunk head s)) (chunk_taken r head) serves
              (omega arith) (omega arith) live (ap (λ (x : ℕ). add64 x 1) same) (omega arith)
              (omega arith) room)))

abbrev live_when : Option Terminal → Bool
live_when none = true
live_when (some t) = false

-- From the stream after its reservations to the stream before.
before_admission :
    (recv : ChunkPolicy) (out : SendOutcome × Sender) (s : Sender) (r : Receiver) (payload : Bytes)
    → Delivers recv out (admitted s) r payload
    → Delivers recv out (record s { credit = (reserve s.credit).1 }) r payload
unfolding reserve_seq
before_admission recv out s r payload d = record {
  outcome = d.outcome;
  credit_same = d.credit_same;
  frames = d.frames;
  wired = d.wired;
  received = d.received;
}

-- What SendMsg comes to on a live stream with credit, for a short message and for a long one.
module _ (send : ChunkPolicy) (late : Bool) (payload : Bytes) (answers : List Answer) (s : Sender)
    (live : is_live s ≡ true) (unclosed : s.send_closed ≡ false)
    (credited : (reserve s.credit).0 ≡ true) where
  send_msg-short :
      (send.active && ltb send.send_inline (length payload)) ≡ false
      → send_msg send false late payload answers s ≡ send_whole late payload answers (admitted s)
  unfolding send_msg
  send_msg-short one_frame =
      if-false _ _ (ap not live)
      ∙ if-false _ _ unclosed
      ∙ if-false _ _ one_frame
      ∙ if-false _ _ (ap not credited)

  send_msg-long :
      (send.active && ltb send.send_inline (length payload)) ≡ true
      → (send.send_inline == 0) ≡ false
      → ltb send.ceiling (length payload) ≡ false
      → send_msg send false late payload answers s
        ≡ send_train send.send_inline late payload answers (admitted s)
  unfolding send_msg send_chunked
  send_msg-long chunked positive within =
      if-false _ _ (ap not live)
      ∙ if-false _ _ unclosed
      ∙ if-true _ _ chunked
      ∙ if-false _ _ positive
      ∙ if-false _ _ (ap not credited)
      ∙ if-false _ _ within

-- On a live stream with credit, whose peer has received all it sent before, `SendMsg` of a message that
-- is within the ceiling (or short enough for one frame) returns nil when the transport accepts the
-- first frame and then each fragment after any number of backpressure rejections. It takes one unit of
-- credit, and the frames that it has put on the wire, one STREAM_MSG or a train of chunks and a
-- STREAM_MSG, give the peer that one message, appended to its queue, with no accumulation left and its
-- expected sequence one after the sender's last.
pub send_msg-Delivers :
    (send recv : ChunkPolicy) (n : ℕ) (answers : List Answer) (late : Bool) (payload : Bytes)
    (s : Sender) (r : Receiver)
    → Matched send recv
    → Ready s r
    → length payload ≤ recv.recv_inline + n * recv.recv_inline
    → (length payload ≤ recv.recv_inline) ⊎ (length payload ≤ recv.ceiling)
    → Serves n answers
    → Delivers recv
        (send_msg send false late payload (Answer.accepted ∷ answers) s)
        (record s { credit = (reserve s.credit).1 })
        r
        payload
unfolding reserve_seq
send_msg-Delivers send recv n answers late payload s r m ready few most serves =
    let live : is_live s ≡ true = ap live_when ready.live in
    let pos = m.positive in
    let start = record s { credit = (reserve s.credit).1 } in
    let by_path =
      λ (out out' : SendOutcome × Sender) (e : out ≡ out')
          (d : Delivers recv out' (admitted s) r payload).
        subst (λ (o : SendOutcome × Sender). Delivers recv o start r payload) (sym e)
          (before_admission recv out' s r payload d) in
    elim (Bool-cases (ltb recv.recv_inline (length payload))) [
      | inr short ↦
          let one_frame : (send.active && ltb send.send_inline (length payload)) ≡ false =
            rw (m.inline_same, short, m.active) in
          by_path _ _
            (send_msg-short send late payload (Answer.accepted ∷ answers) s live ready.unclosed
              ready.credited one_frame)
            (send_whole-Delivers recv pos m.word answers late payload (admitted s) r
              ready.unclosed_peer ready.in_order ready.empty ready.room)
      | inl long ↦
          let chunked : (send.active && ltb send.send_inline (length payload)) ≡ true =
            rw (m.inline_same, long, m.active) in
          let nonzero : (send.send_inline == 0) ≡ false = rw m.inline_same (ground arith) in
          let below : ltb send.ceiling (length payload) ≡ false =
            rw m.ceiling_same (ground arith) in
          by_path _ _
            (send_msg-long send late payload (Answer.accepted ∷ answers) s live ready.unclosed
                ready.credited chunked nonzero below
              ∙ ap
                  (λ (limit : ℕ).
                    send_train limit late payload (Answer.accepted ∷ answers) (admitted s))
                  m.inline_same)
            (send_train-Delivers recv pos m.word n answers late payload (admitted s) r serves
              (ground arith) (omega arith) (ground arith) ready.unclosed_peer ready.in_order
              ready.empty ready.room)
    ]
