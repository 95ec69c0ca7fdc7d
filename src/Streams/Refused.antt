-- ===== src/Streams/Refused.antt =====
-- A send that was refused before anything was published leaves the stream as it was.
use styx.Base.{
  ℕ, ◌+◌, ◌<◌, ◌≡◌, refl, sym, ap, ◌∙◌, arith, Bool, true, false, not, ◌&&◌, ltb, leb, ◌==◌, List,
  [], ◌∷◌, length, take, drop, u64_mod, add64, sub64, not-false, Bool-cases, inl, inr,
  if◌then◌else◌,
}
use styx.Base.Bytes.{Bytes}
use styx.Credit.{CreditCounter, available, reserve, release}
use styx.Streams.{FrameKind, ChunkPolicy}
use styx.Streams.Send.{
  Answer, Sender, SendOutcome, never_published, handle_send_err, fail_visible_train, put,
  reserve_seq, send_fragments, send_train, send_chunked, send_whole, send_msg, is_live,
}

abbrev refusal : SendOutcome → Bool
refusal (SendOutcome.refused a) = true
refusal o = false

-- The counts are uint64, and one more message can be counted.
pub record Countable (s : Sender) : Type 0 where
  pub seq_word : s.send_seq < u64_mod
  pub sent_fits : s.credit.sent + 1 < u64_mod

abbrev admitted : Sender → Sender
admitted s = reserve_seq (record s { credit = (reserve s.credit).1 })

release-reserve :
    (c : CreditCounter) → c.sent + 1 < u64_mod → (reserve c).0 ≡ true → release (reserve c).1 ≡ c
unfolding reserve release available
release-reserve c fits e = ground arith

visible-refusal :
    (late : Bool) (a : Answer) (s : Sender) → refusal (fail_visible_train late a s).0 ≡ false
unfolding fail_visible_train
visible-refusal late Answer.accepted s = refl
visible-refusal late Answer.backpressure s = refl
visible-refusal late Answer.payload_too_large s = refl
visible-refusal late Answer.unimplemented_kind s = refl
visible-refusal late Answer.canceled s = refl
visible-refusal late Answer.deadline_exceeded s = refl
visible-refusal late Answer.closed s = refl
visible-refusal late Answer.poisoned s = refl
visible-refusal late Answer.other_error s = refl

-- Behind a published fragment nothing is refused.
fragments-refusal :
    (limit : ℕ) (late : Bool) (rest : Bytes) (answers : List Answer) (s : Sender)
    → refusal (send_fragments limit late rest answers s).0 ≡ false
unfolding send_fragments put reserve_seq
fragments-refusal limit late rest [] s = refl
fragments-refusal limit late rest (Answer.backpressure ∷ answers) s =
    fragments-refusal limit late rest answers s
fragments-refusal limit late rest (Answer.accepted ∷ answers) s =
    let later =
      fragments-refusal limit late (drop limit rest) answers
        (reserve_seq (put FrameKind.frame_stream_chunk (take limit rest) s)) in
    elim (Bool-cases (leb (length rest) limit)) [
      | inl final ↦ rw final refl
      | inr more ↦ rw more later
    ]
fragments-refusal limit late rest (Answer.payload_too_large ∷ answers) s =
    visible-refusal late Answer.payload_too_large s
fragments-refusal limit late rest (Answer.unimplemented_kind ∷ answers) s =
    visible-refusal late Answer.unimplemented_kind s
fragments-refusal limit late rest (Answer.canceled ∷ answers) s =
    visible-refusal late Answer.canceled s
fragments-refusal limit late rest (Answer.deadline_exceeded ∷ answers) s =
    visible-refusal late Answer.deadline_exceeded s
fragments-refusal limit late rest (Answer.closed ∷ answers) s = visible-refusal late Answer.closed s
fragments-refusal limit late rest (Answer.poisoned ∷ answers) s =
    visible-refusal late Answer.poisoned s
fragments-refusal limit late rest (Answer.other_error ∷ answers) s =
    visible-refusal late Answer.other_error s

-- If the outcome is a refusal, the state is the given one.
abbrev Undone : SendOutcome × Sender → Sender → Type 0
Undone out s = refusal out.0 ≡ true → out.1 ≡ s

Undone-if :
    (b : Bool) (x y : SendOutcome × Sender) (s : Sender)
    → (b ≡ true → Undone x s)
    → (b ≡ false → Undone y s)
    → Undone (if b then x else y) s
Undone-if true x y s h k = h refl
Undone-if false x y s h k = k refl

true_not_false : ¬ (true ≡ false)
true_not_false e = cc

module _ (s : Sender) (fits : Countable s) (credited : (reserve s.credit).0 ≡ true) where
  -- The credit and the number are those before the reservations.
  restored :
      record (admitted s) {
        credit = release (reserve s.credit).1;
        send_seq =
            if (admitted s).send_seq == (admitted s).send_seq
            then sub64 (admitted s).send_seq 1
            else (admitted s).send_seq;
      }
      ≡ s
  unfolding reserve_seq
  restored =
      let seq = add64 s.send_seq 1 in
      let bound = fits.seq_word in
      let back : (if seq == seq then sub64 seq 1 else seq) ≡ s.send_seq = ground arith in
      ap
        (λ (c : CreditCounter). record s {
          credit = c;
          send_seq = if seq == seq then sub64 seq 1 else seq;
        })
        (release-reserve s.credit fits.sent_fits credited)
      ∙ ap (λ (q : ℕ). record s { send_seq = q }) back

  rolled_back :
      (late : Bool) (a : Answer)
      → Undone (handle_send_err late a (admitted s).send_seq (admitted s)) s
  unfolding handle_send_err never_published reserve_seq reserve
  rolled_back late Answer.accepted e = absurd (cc e)
  rolled_back late Answer.backpressure e = restored
  rolled_back late Answer.payload_too_large e = restored
  rolled_back late Answer.unimplemented_kind e = restored
  rolled_back late Answer.canceled e = absurd (cc e)
  rolled_back late Answer.deadline_exceeded e = absurd (cc e)
  rolled_back late Answer.closed e = absurd (cc e)
  rolled_back late Answer.poisoned e = absurd (cc e)
  rolled_back late Answer.other_error e = absurd (cc e)

  whole-Undone :
      (late : Bool) (payload : Bytes) (answers : List Answer)
      → Undone (send_whole late payload answers (admitted s)) s
  unfolding send_whole
  whole-Undone late payload [] e = absurd (cc e)
  whole-Undone late payload (Answer.accepted ∷ answers) e = absurd (cc e)
  whole-Undone late payload (Answer.backpressure ∷ answers) e =
      rolled_back late Answer.backpressure e
  whole-Undone late payload (Answer.payload_too_large ∷ answers) e =
      rolled_back late Answer.payload_too_large e
  whole-Undone late payload (Answer.unimplemented_kind ∷ answers) e =
      rolled_back late Answer.unimplemented_kind e
  whole-Undone late payload (Answer.canceled ∷ answers) e = rolled_back late Answer.canceled e
  whole-Undone late payload (Answer.deadline_exceeded ∷ answers) e =
      rolled_back late Answer.deadline_exceeded e
  whole-Undone late payload (Answer.closed ∷ answers) e = rolled_back late Answer.closed e
  whole-Undone late payload (Answer.poisoned ∷ answers) e = rolled_back late Answer.poisoned e
  whole-Undone late payload (Answer.other_error ∷ answers) e = rolled_back late Answer.other_error e

  train-Undone :
      (limit : ℕ) (late : Bool) (payload : Bytes) (answers : List Answer)
      → Undone (send_train limit late payload answers (admitted s)) s
  unfolding send_train never_published
  train-Undone limit late payload [] e = absurd (cc e)
  train-Undone limit late payload (Answer.accepted ∷ answers) e =
      let first = put FrameKind.frame_stream_chunk (take limit payload) (admitted s) in
      Undone-if (leb (length payload) limit) (SendOutcome.sent, first)
        (send_fragments limit late (drop limit payload) answers (reserve_seq first)) s
        (λ last q. absurd (cc q))
        (λ more q. absurd (
          true_not_false (
            sym q ∙ fragments-refusal limit late (drop limit payload) answers (reserve_seq first))))
        e
  train-Undone limit late payload (Answer.backpressure ∷ answers) e =
      rolled_back late Answer.backpressure e
  train-Undone limit late payload (Answer.payload_too_large ∷ answers) e =
      rolled_back late Answer.payload_too_large e
  train-Undone limit late payload (Answer.unimplemented_kind ∷ answers) e =
      rolled_back late Answer.unimplemented_kind e
  train-Undone limit late payload (Answer.canceled ∷ answers) e =
      absurd (true_not_false (sym e ∙ visible-refusal late Answer.canceled (admitted s)))
  train-Undone limit late payload (Answer.deadline_exceeded ∷ answers) e =
      absurd (true_not_false (sym e ∙ visible-refusal late Answer.deadline_exceeded (admitted s)))
  train-Undone limit late payload (Answer.closed ∷ answers) e =
      absurd (true_not_false (sym e ∙ visible-refusal late Answer.closed (admitted s)))
  train-Undone limit late payload (Answer.poisoned ∷ answers) e =
      absurd (true_not_false (sym e ∙ visible-refusal late Answer.poisoned (admitted s)))
  train-Undone limit late payload (Answer.other_error ∷ answers) e =
      absurd (true_not_false (sym e ∙ visible-refusal late Answer.other_error (admitted s)))

  chunked-Undone :
      (policy : ChunkPolicy) (late : Bool) (payload : Bytes) (answers : List Answer)
      → Undone (send_chunked policy late payload answers s) s
  unfolding send_chunked
  chunked-Undone policy late payload answers =
      Undone-if (policy.send_inline == 0) _ _ s (λ none_fit e. refl)
        (λ some_fit.
          Undone-if (not (reserve s.credit).0) _ _ s (λ waits e. refl)
            (λ admits.
              Undone-if (ltb policy.ceiling (length payload)) _ _ s
                (λ large. rolled_back late Answer.payload_too_large)
                (λ within. train-Undone policy.send_inline late payload answers)))

-- With no credit nothing is reserved.
uncredited-Undone :
    (policy : ChunkPolicy) (late : Bool) (payload : Bytes) (answers : List Answer) (s : Sender)
    → (reserve s.credit).0 ≡ false
    → Undone (send_chunked policy late payload answers s) s
unfolding send_chunked
uncredited-Undone policy late payload answers s waits =
    Undone-if (policy.send_inline == 0) _ _ s (λ none_fit e. refl)
      (λ some_fit.
        Undone-if (not (reserve s.credit).0) _ _ s (λ held e. refl)
          (λ admits. absurd (true_not_false (sym (ap not waits) ∙ admits))))

-- When `SendMsg` returns an error that proves the message was not published, because the direction
-- carries no payload, the message is over the ceiling, or the transport refused the first frame (of a
-- train too) with such an error, the stream is as it was before the call: no credit is taken, no
-- sequence number is used, nothing is on the wire and it is not terminated. Stated for counts that are
-- uint64 and one below the wrap-around.
pub send_msg-Undone :
    (policy : ChunkPolicy) (ctx_done late : Bool) (payload : Bytes) (answers : List Answer)
    (s : Sender) (a : Answer)
    → Countable s
    → (send_msg policy ctx_done late payload answers s).0 ≡ SendOutcome.refused a
    → (send_msg policy ctx_done late payload answers s).1 ≡ s
unfolding send_msg
send_msg-Undone policy ctx_done late payload answers s a fits e =
    Undone-if (not (is_live s)) _ _ s (λ over q. refl)
      (λ live.
        Undone-if s.send_closed _ _ s (λ shut q. refl)
          (λ unclosed.
            Undone-if ctx_done _ _ s (λ done q. refl)
              (λ running.
                Undone-if (policy.active && ltb policy.send_inline (length payload)) _ _ s
                  (λ long. elim (Bool-cases (reserve s.credit).0) [
                    | inl credited ↦ chunked-Undone s fits credited policy late payload answers
                    | inr waits ↦ uncredited-Undone policy late payload answers s waits
                  ])
                  (λ short.
                    Undone-if (not (reserve s.credit).0) _ _ s (λ held q. refl)
                      (λ admits.
                        whole-Undone s fits (not-false (reserve s.credit).0 admits) late payload
                          answers)))))
      (ap refusal e)
