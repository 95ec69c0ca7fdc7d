-- ===== src/Streams/Bounds.antt =====
-- Whatever frames a peer sends, what a stream buffers is bounded.
use styx.Base.{
  ℕ, ◌+◌, ◌≤◌, ◌<◌, ◌≡◌, ◌⊎◌, inl, inr, arith, Bool, true, false, some, List, [], ◌∷◌, ◌++◌, length,
  length-append, u32_mod, ltb, not, if◌then◌else◌, ◌==◌, ◌||◌, add64, sub64,
}
use styx.Base.Maybe.{>>=-eq-some, some_inj, guard-eq-some, guard}
use styx.Base.Bytes.{Bytes}
use styx.Streams.{
  Frame, FrameKind, ChunkPolicy, RecvItem, Receiver, accum_fits, on_stream_chunk,
  complete_recv_accum, enqueue, credited_item, on_stream_msg, on_stream_close, on_frame,
  receive_all,
}

-- A message that came in fragments is within the ceiling, and one that came whole within a frame.
abbrev pub AllBounded : ChunkPolicy → List RecvItem → Type 0
AllBounded policy [] = Unit
AllBounded policy (i ∷ is) =
    ((length i.payload ≤ policy.ceiling) ⊎ (length i.payload ≤ policy.recv_inline))
    × AllBounded policy is

-- What a stream buffers: the pending accumulation, and the messages not yet read.
pub record IsBounded (policy : ChunkPolicy) (s : Receiver) : Type 0 where
  pub accum : length s.recv_accum ≤ policy.ceiling
  pub queue : length s.recv_queue ≤ s.recv_room
  pub items : AllBounded policy s.recv_queue

-- The frames that the transport delivers on this direction are within its limit.
abbrev pub AllFit : ChunkPolicy → List Frame → Type 0
AllFit policy [] = Unit
AllFit policy (f ∷ fs) = (length f.payload ≤ policy.recv_inline) × AllFit policy fs

-- The limits are uint32.
pub record IsPolicy (policy : ChunkPolicy) : Type 0 where
  pub ceiling_word : policy.ceiling < u32_mod
  pub inline_word : policy.recv_inline < u32_mod

AllBounded-append :
    (policy : ChunkPolicy) (is : List RecvItem) (i : RecvItem)
    → AllBounded policy is
    → (length i.payload ≤ policy.ceiling) ⊎ (length i.payload ≤ policy.recv_inline)
    → AllBounded policy (is ++ (i ∷ []))
AllBounded-append policy [] i h b = (b, tt)
AllBounded-append policy (j ∷ is) i h b = (h.0, AllBounded-append policy is i h.1 b)

-- Two lengths that fit do so without wrap-around.
accum_fits-le :
    (a n ceiling : ℕ) → a < u32_mod → n < u32_mod → accum_fits a n ceiling ≡ true → a + n ≤ ceiling
unfolding accum_fits
accum_fits-le a n ceiling ha hn e = ground arith

enqueue-IsBounded :
    (policy : ChunkPolicy) (i : RecvItem) (s r : Receiver)
    → IsBounded policy s
    → (length i.payload ≤ policy.ceiling) ⊎ (length i.payload ≤ policy.recv_inline)
    → enqueue i s ≡ some r
    → IsBounded policy r
unfolding enqueue
enqueue-IsBounded policy i s r h b e =
    let (u, room, e') = >>=-eq-some (guard (ltb (length s.recv_queue) s.recv_room)) _ e in
    let free = guard-eq-some _ room in
    rw (← some_inj e') (record {
      accum = h.accum;
      queue = ground (arith, length-append s.recv_queue (i ∷ []));
      items = AllBounded-append policy s.recv_queue i h.items b;
    })

chunk-IsBounded :
    (policy : ChunkPolicy) (f : Frame) (s r : Receiver)
    → IsPolicy policy
    → length f.payload ≤ policy.recv_inline
    → IsBounded policy s
    → on_stream_chunk policy f s ≡ some r
    → IsBounded policy r
unfolding on_stream_chunk
chunk-IsBounded policy f s r p fit h e =
    let (u, live, e1) = >>=-eq-some (guard (not s.close_remote)) _ e in
    let (u1, ordered, e2) = >>=-eq-some (guard (f.control == s.expected_seq)) _ e1 in
    let (u2, canonical, e3) =
      >>=-eq-some
        (guard (not (length f.payload == 0 || not (length f.payload == policy.recv_inline)))) _
        e2 in
    let (u3, fits, e4) =
      >>=-eq-some (guard (accum_fits (length s.recv_accum) (length f.payload) policy.ceiling)) _
        e3 in
    let words = p.ceiling_word in
    let words' = p.inline_word in
    let within = h.accum in
    let most =
      accum_fits-le (length s.recv_accum) (length f.payload) policy.ceiling (omega arith)
        (omega arith) (guard-eq-some _ fits) in
    rw (← some_inj e4) (record {
      accum = omega (arith, most, length-append s.recv_accum f.payload);
      queue = h.queue;
      items = h.items;
    })

complete-IsBounded :
    (policy : ChunkPolicy) (final : Bytes) (s : Receiver) (whole : Bytes × Receiver)
    → IsPolicy policy
    → IsBounded policy s
    → complete_recv_accum policy final s ≡ some whole
    → (length whole.0 ≤ policy.ceiling) × IsBounded policy whole.1
unfolding complete_recv_accum
complete-IsBounded policy final s whole p h e =
    let (u, short, e1) =
      >>=-eq-some (guard (not (length final == 0 || ltb policy.recv_inline (length final)))) _ e in
    let (u1, fits, e2) =
      >>=-eq-some (guard (accum_fits (length s.recv_accum) (length final) policy.ceiling)) _ e1 in
    let short' = guard-eq-some _ short in
    let words = p.ceiling_word in
    let words' = p.inline_word in
    let within = h.accum in
    let small : length final < u32_mod = ground arith in
    let most =
      accum_fits-le (length s.recv_accum) (length final) policy.ceiling (omega arith) small
        (guard-eq-some _ fits) in
    rw (← some_inj e2) (
      omega (arith, most, length-append s.recv_accum final),
      record { accum = omega arith; queue = h.queue; items = h.items },
    )

-- The message of a STREAM_MSG, whole or completed.
whole-IsBounded :
    (policy : ChunkPolicy) (f : Frame) (s : Receiver) (whole : Bytes × Receiver) (pending : Bool)
    → IsPolicy policy
    → length f.payload ≤ policy.recv_inline
    → IsBounded policy s
    → (if pending then complete_recv_accum policy f.payload s else some (f.payload, s)) ≡ some whole
    → ((length whole.0 ≤ policy.ceiling) ⊎ (length whole.0 ≤ policy.recv_inline))
      × IsBounded policy whole.1
whole-IsBounded policy f s whole true p fit h e =
    let (most, kept) = complete-IsBounded policy f.payload s whole p h e in (inl most, kept)
whole-IsBounded policy f s whole false p fit h e = rw (← some_inj e) (inr fit, h)

msg-IsBounded :
    (policy : ChunkPolicy) (f : Frame) (s r : Receiver)
    → IsPolicy policy
    → length f.payload ≤ policy.recv_inline
    → IsBounded policy s
    → on_stream_msg policy f s ≡ some r
    → IsBounded policy r
unfolding on_stream_msg
msg-IsBounded policy f s r p fit h e =
    let (u, live, e1) = >>=-eq-some (guard (not s.close_remote)) _ e in
    let (u1, ordered, e2) = >>=-eq-some (guard (f.control == s.expected_seq)) _ e1 in
    let (whole, found, e3) =
      >>=-eq-some
        (if ltb 0 (length s.recv_accum)
          then complete_recv_accum policy f.payload s
          else some (f.payload, s))
        _ e2 in
    let (most, kept) =
      whole-IsBounded policy f s whole (ltb 0 (length s.recv_accum)) p fit h found in
    enqueue-IsBounded policy (credited_item whole.0)
      (record whole.1 { expected_seq = add64 s.expected_seq 1 }) r
      (record { accum = kept.accum; queue = kept.queue; items = kept.items }) most e3

-- The response payload of a half-close.
response_kept :
    (policy : ChunkPolicy) (f : Frame) (s r : Receiver) (carries : Bool)
    → length f.payload ≤ policy.recv_inline
    → IsBounded policy s
    → (if carries then enqueue (record { payload = f.payload; credited = false }) s else some s)
      ≡ some r
    → IsBounded policy r
response_kept policy f s r true fit h e =
    enqueue-IsBounded policy (record { payload = f.payload; credited = false }) s r h (inr fit) e
response_kept policy f s r false fit h e = rw (← some_inj e) h

close-IsBounded :
    (policy : ChunkPolicy) (f : Frame) (s r : Receiver)
    → length f.payload ≤ policy.recv_inline
    → IsBounded policy s
    → on_stream_close f s ≡ some r
    → IsBounded policy r
unfolding on_stream_close
close-IsBounded policy f s r fit h e =
    let (u, clean, e1) = >>=-eq-some (guard (not (ltb 0 (length s.recv_accum)))) _ e in
    let (u1, live, e2) = >>=-eq-some (guard (not s.close_remote)) _ e1 in
    let (u2, ordered, e3) = >>=-eq-some (guard (f.control == sub64 s.expected_seq 1)) _ e2 in
    let (delivered, found, e4) =
      >>=-eq-some
        (if ltb 0 (length f.payload)
          then enqueue (record { payload = f.payload; credited = false })
              (record s { close_remote = true })
          else some (record s { close_remote = true }))
        _ e3 in
    let kept =
      response_kept policy f (record s { close_remote = true }) delivered (ltb 0 (length f.payload))
        fit (record { accum = h.accum; queue = h.queue; items = h.items }) found in
    rw (← some_inj e4) (record { accum = kept.accum; queue = kept.queue; items = kept.items })

frame-IsBounded :
    (policy : ChunkPolicy) (k : FrameKind) (f : Frame) (s r : Receiver)
    → IsPolicy policy
    → length f.payload ≤ policy.recv_inline
    → IsBounded policy s
    → on_frame policy k f s ≡ some r
    → IsBounded policy r
unfolding on_frame
frame-IsBounded policy FrameKind.frame_stream_msg f s r p fit h e =
    msg-IsBounded policy f s r p fit h e
frame-IsBounded policy FrameKind.frame_stream_chunk f s r p fit h e =
    chunk-IsBounded policy f s r p fit h e
frame-IsBounded policy FrameKind.frame_stream_close f s r p fit h e =
    close-IsBounded policy f s r fit h e

-- However a peer orders, numbers and sizes its frames, each within the transport's limit: when none of
-- them is rejected, the pending accumulation is at most the ceiling, the messages not yet read are at
-- most the channel's capacity, and each of those is within the ceiling or within one frame's limit.
pub receive_all-IsBounded :
    (policy : ChunkPolicy) (fs : List Frame) (s r : Receiver)
    → IsPolicy policy
    → AllFit policy fs
    → IsBounded policy s
    → receive_all policy fs s ≡ some r
    → IsBounded policy r
unfolding receive_all
receive_all-IsBounded policy [] s r p fit h e = rw (← some_inj e) h
receive_all-IsBounded policy (f ∷ fs) s r p fit h e =
    let (next, stepped, e') = >>=-eq-some (on_frame policy f.kind f s) _ e in
    receive_all-IsBounded policy fs next r p fit.1
      (frame-IsBounded policy f.kind f s next p fit.0 h stepped) e'
