-- ===== src/Streams/Tests.antt =====
-- Messages sent and received at concrete limits: three bytes a frame, eight a message.
use styx.Base.{ℕ, ◌≡◌, refl, arith, true, false, none, some, List, [], ◌∷◌, inr}
use styx.Base.Bytes.{Bytes}
use styx.Credit.{available, reserve}
use styx.Streams.{
  Frame, FrameKind, ChunkPolicy, Receiver, credited_item, accum_fits, complete_recv_accum, enqueue,
  on_stream_chunk, on_stream_msg, on_frame, receive_all,
}
use styx.Streams.Send.{
  Answer, Sender, SendOutcome, handle_send_err, never_published, reserve_seq, send_chunked,
  send_msg,
}
use styx.Streams.Bounds.{IsBounded, receive_all-IsBounded}
use styx.Streams.Train.{Delivers}
use styx.Streams.RoundTrip.{send_msg-Delivers}
use styx.Streams.Refused.{send_msg-Undone}

abbrev policy : ChunkPolicy
policy = record { active = true; ceiling = 8; send_inline = 3; recv_inline = 3 }

abbrev fresh_receiver : Receiver
fresh_receiver = record {
  close_remote = false;
  close_local = false;
  expected_seq = 1;
  recv_accum = [];
  recv_queue = [];
  recv_room = 5;
  recv_closed = false;
  completed = false;
}

abbrev fresh_sender : Sender
fresh_sender = record {
  call_id = 11;
  service = 2;
  method = 3;
  send_closed = false;
  terminal = none;
  send_seq = 0;
  credit = record { granted = 4; sent = 0; acked = 0; consumed = 0; acked_out = 0; ack_thresh = 2 };
  wire = [];
}

abbrev message : Bytes
message = 10 ∷ 20 ∷ 30 ∷ 40 ∷ 50 ∷ 60 ∷ 70 ∷ []

abbrev frame : FrameKind → ℕ → Bytes → Frame
frame k seq payload = record {
  call_id = 11;
  kind = k;
  service = 2;
  method = 3;
  payload = payload;
  control = seq;
}

abbrev train : List Frame
train =
    frame FrameKind.frame_stream_chunk 1 (10 ∷ 20 ∷ 30 ∷ [])
    ∷ frame FrameKind.frame_stream_chunk 2 (40 ∷ 50 ∷ 60 ∷ [])
    ∷ frame FrameKind.frame_stream_msg 3 (70 ∷ [])
    ∷ []

abbrev after_train : Receiver
after_train = record fresh_receiver { expected_seq = 4; recv_queue = credited_item message ∷ [] }

train_received : receive_all policy train fresh_receiver ≡ some after_train
unfolding receive_all on_frame on_stream_chunk on_stream_msg complete_recv_accum enqueue accum_fits
train_received = refl

receive_all-IsBounded_example : IsBounded policy after_train
receive_all-IsBounded_example =
    receive_all-IsBounded policy train fresh_receiver after_train
      (record { ceiling_word = omega arith; inline_word = omega arith })
      (omega arith, (omega arith, (omega arith, tt)))
      (record { accum = omega arith; queue = omega arith; items = tt }) train_received

abbrev answers : List Answer
answers = Answer.backpressure ∷ Answer.accepted ∷ Answer.backpressure ∷ Answer.accepted ∷ []

has_credit : (reserve fresh_sender.credit).0 ≡ true
unfolding reserve available
has_credit = refl

send_msg-Delivers_example :
    Delivers policy
      (send_msg policy false false message (Answer.accepted ∷ answers) fresh_sender)
      (record fresh_sender { credit = (reserve fresh_sender.credit).1 })
      fresh_receiver
      message
send_msg-Delivers_example =
    send_msg-Delivers policy policy 2 answers false message fresh_sender fresh_receiver
      (record {
        active = refl;
        inline_same = refl;
        ceiling_same = refl;
        positive = omega arith;
        word = omega arith;
      })
      (record {
        live = refl;
        unclosed = refl;
        credited = has_credit;
        unclosed_peer = refl;
        in_order = refl;
        empty = refl;
        room = omega arith;
      })
      (omega arith) (inr (omega arith)) tt

-- Nine bytes are over the ceiling.
abbrev too_long : Bytes
too_long = 80 ∷ 90 ∷ message

too_long_refused :
    (send_msg policy false false too_long [] fresh_sender).0
    ≡ SendOutcome.refused Answer.payload_too_large
unfolding send_msg send_chunked handle_send_err never_published reserve available reserve_seq
too_long_refused = refl

send_msg-Undone_example : (send_msg policy false false too_long [] fresh_sender).1 ≡ fresh_sender
send_msg-Undone_example =
    send_msg-Undone policy false false too_long [] fresh_sender Answer.payload_too_large
      (record { seq_word = omega arith; sent_fits = omega arith }) too_long_refused
