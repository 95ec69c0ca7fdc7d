-- ===== src/Streams/Send.antt =====
-- internal/rpcruntime/stream.go (SendMsg, handleSendErr) and chunk_send.go: a stream's outbound messages.
-- The transport's Send is a parameter: the list of the answers that its calls return, in order. Where
-- the list ends, the call has not returned.
use styx.Base.{
  ℕ, Bool, true, false, not, ◌&&◌, Option, none, some, List, [], ◌∷◌, ◌++◌, length, take, drop, ltb,
  leb, ◌==◌, if◌then◌else◌, add64, sub64,
}
use styx.Base.Bytes.{Bytes}
use styx.Credit.{CreditCounter, reserve, release}
use styx.Streams.{Frame, FrameKind, ChunkPolicy}

-- What transport.Send returns.
pub data Answer : Type 0 where
  accepted : Answer
  backpressure : Answer
  payload_too_large : Answer
  unimplemented_kind : Answer
  canceled : Answer
  deadline_exceeded : Answer
  closed : Answer
  poisoned : Answer
  other_error : Answer

-- transport.NeverPublished
unfoldable pub never_published : Answer → Bool
never_published Answer.backpressure = true
never_published Answer.payload_too_large = true
never_published Answer.unimplemented_kind = true
never_published a = false

abbrev is_context_error : Answer → Bool
is_context_error Answer.canceled = true
is_context_error Answer.deadline_exceeded = true
is_context_error a = false

abbrev is_connection_error : Answer → Bool
is_connection_error Answer.closed = true
is_connection_error Answer.poisoned = true
is_connection_error a = false

-- An outcome that a send records; a cancellation may wrap the transport's error.
pub data Terminal : Type 0 where
  terminal_canceled : Option Answer → Terminal
  terminal_deadline : Terminal

-- The outbound half of a stream; `wire` is what the transport has accepted.
pub record Sender : Type 0 where
  pub call_id : ℕ
  pub service : ℕ
  pub method : ℕ
  pub send_closed : Bool
  pub terminal : Option Terminal
  pub send_seq : ℕ
  pub credit : CreditCounter
  pub wire : List Frame

-- What SendMsg returns. `waiting`: it has not returned; `refused` and `failed` carry the transport's
-- error, `recorded` the stream's outcome.
pub data SendOutcome : Type 0 where
  sent : SendOutcome
  already_terminal : SendOutcome
  already_closed : SendOutcome
  ctx_error : SendOutcome
  waiting : SendOutcome
  refused : Answer → SendOutcome
  failed : Answer → SendOutcome
  recorded : Terminal → SendOutcome

-- The first terminal outcome stays; the answer is the one that is recorded.
unfoldable pub terminate : Terminal → Sender → SendOutcome × Sender
terminate attempt s =
    let outcome : Terminal = elim s.terminal [ some t ↦ t | none ↦ attempt ] in
    (SendOutcome.recorded outcome, record s { terminal = some outcome })

abbrev context_terminal : Bool → Terminal
context_terminal past_deadline =
    if past_deadline then Terminal.terminal_deadline else Terminal.terminal_canceled none

-- `past_deadline`: the stream's or the caller's context has passed its deadline.
unfoldable pub handle_send_err : Bool → Answer → ℕ → Sender → SendOutcome × Sender
unfolding never_published terminate
handle_send_err past_deadline err seq s =
    if never_published err
    then (
      SendOutcome.refused err,
      record s {
        credit = release s.credit;
        send_seq = if s.send_seq == seq then sub64 seq 1 else s.send_seq;
      },
    )
    else if is_context_error err
    then terminate (context_terminal past_deadline) s
    else (SendOutcome.failed err, s)

unfoldable pub fail_visible_train : Bool → Answer → Sender → SendOutcome × Sender
unfolding terminate
fail_visible_train past_deadline err s =
    if is_context_error err
    then terminate (context_terminal past_deadline) s
    else if is_connection_error err
    then (SendOutcome.failed err, s)
    else terminate (Terminal.terminal_canceled (some err)) s

unfoldable pub reserve_seq : Sender → Sender
reserve_seq s = record s { send_seq = add64 s.send_seq 1 }

abbrev pub frame_of : Sender → FrameKind → Bytes → Frame
frame_of s k payload = record {
  call_id = s.call_id;
  kind = k;
  service = s.service;
  method = s.method;
  payload = payload;
  control = s.send_seq;
}

-- The transport has accepted a frame under the newest reservation.
unfoldable pub put : FrameKind → Bytes → Sender → Sender
put k payload s = record s { wire = s.wire ++ (frame_of s k payload ∷ []) }

-- The fragments from `rest` on, the first under the newest reservation; each is retried on
-- backpressure. The wait between retries has the context's end for its only other exit, which is then
-- the answer.
unfoldable pub send_fragments : ℕ → Bool → Bytes → List Answer → Sender → SendOutcome × Sender
unfolding put reserve_seq
send_fragments limit past_deadline rest [] s = (SendOutcome.waiting, s)
send_fragments limit past_deadline rest (Answer.backpressure ∷ answers) s =
    send_fragments limit past_deadline rest answers s
send_fragments limit past_deadline rest (Answer.accepted ∷ answers) s =
    let next =
      send_fragments limit past_deadline (drop limit rest) answers
        (reserve_seq (put FrameKind.frame_stream_chunk (take limit rest) s)) in
    if leb (length rest) limit
    then (SendOutcome.sent, put FrameKind.frame_stream_msg rest s)
    else next
send_fragments limit past_deadline rest (a ∷ answers) s = fail_visible_train past_deadline a s

-- The first fragment, a chunk whatever its length, and the others.
unfoldable pub send_train : ℕ → Bool → Bytes → List Answer → Sender → SendOutcome × Sender
unfolding put reserve_seq
send_train limit past_deadline payload [] s = (SendOutcome.waiting, s)
send_train limit past_deadline payload (Answer.accepted ∷ answers) s =
    let first = put FrameKind.frame_stream_chunk (take limit payload) s in
    if leb (length payload) limit
    then (SendOutcome.sent, first)
    else send_fragments limit past_deadline (drop limit payload) answers (reserve_seq first)
send_train limit past_deadline payload (a ∷ answers) s =
    if never_published a
    then handle_send_err past_deadline a s.send_seq s
    else fail_visible_train past_deadline a s

-- With no credit, admit waits.
unfoldable pub send_chunked :
    ChunkPolicy → Bool → Bytes → List Answer → Sender → SendOutcome × Sender
unfolding reserve_seq
send_chunked policy past_deadline payload answers s =
    if policy.send_inline == 0
    then (SendOutcome.refused Answer.payload_too_large, s)
    else if not (reserve s.credit).0
    then (SendOutcome.waiting, s)
    else (let admitted = reserve_seq (record s { credit = (reserve s.credit).1 }) in
        if ltb policy.ceiling (length payload)
        then handle_send_err past_deadline Answer.payload_too_large admitted.send_seq admitted
        else send_train policy.send_inline past_deadline payload answers admitted)

-- The one-frame path, after its reservation.
unfoldable pub send_whole : Bool → Bytes → List Answer → Sender → SendOutcome × Sender
unfolding put
send_whole past_deadline payload [] s = (SendOutcome.waiting, s)
send_whole past_deadline payload (Answer.accepted ∷ answers) s =
    (SendOutcome.sent, put FrameKind.frame_stream_msg payload s)
send_whole past_deadline payload (a ∷ answers) s = handle_send_err past_deadline a s.send_seq s

abbrev pub is_live : Sender → Bool
is_live s = elim s.terminal [ none ↦ true | some t ↦ false ]

-- `ctx_done` is whether the caller's context is done at the entry.
unfoldable pub send_msg :
    ChunkPolicy → Bool → Bool → Bytes → List Answer → Sender → SendOutcome × Sender
unfolding reserve_seq
send_msg policy ctx_done past_deadline payload answers s =
    if not (is_live s)
    then (SendOutcome.already_terminal, s)
    else if s.send_closed
    then (SendOutcome.already_closed, s)
    else if ctx_done
    then (SendOutcome.ctx_error, s)
    else if policy.active && ltb policy.send_inline (length payload)
    then send_chunked policy past_deadline payload answers s
    else if not (reserve s.credit).0
    then (SendOutcome.waiting, s)
    else send_whole past_deadline payload answers
        (reserve_seq (record s { credit = (reserve s.credit).1 }))
