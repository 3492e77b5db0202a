-- ===== src/Peer/Tls/Order/Completions.antt =====
-- `peer_tls::finish_write` keeps the order of the transmit queue.
use ws_streaming.Prelude.{
  ℕ, ◌-◌, ◌≤◌, ◌≡◌, refl, sym, ap, ◌∙◌, List, [], ◌∷◌, ◌++◌, true, false, not, inl, inr, arith,
  length, take, drop, take-append-drop, ◌==◌, length-append, append_assoc, take_all, Bool-cases,
  if◌then◌else◌, subst,
}
use ws_streaming.Peer.Effects.{ErrorCode, is_error, success}
use ws_streaming.Peer.Tls.{Message, PeerTls, close, do_write, finish_entry, finish_write}
use ws_streaming.Peer.Tls.Order.State.{queued, IsCompletion, InOrder, close-InOrder}

module _ {Json : Type 0} where
  -- The branches of `finish_write` on a queue with a front message.
  abbrev flown : PeerTls Json → Message → ℕ → PeerTls Json
  flown p m n = record p { write_in_flight = false; sent = p.sent ++ take n m.bytes }

  abbrev popped : PeerTls Json → Message → List Message → ℕ → PeerTls Json
  popped p m ms n = record (flown p m n) {
    tx_queue = ms;
    tx_queued_bytes = p.tx_queued_bytes - length m.bytes;
  }

  finish_entry-failed :
      (p : PeerTls Json) (m : Message) (ms : List Message) (ec : ErrorCode) (n : ℕ)
      → is_error ec ≡ true
      → finish_entry p m ms ec n ≡ close (flown p m n) ec
  unfolding finish_entry
  finish_entry-failed p m ms ec n h = rw h

  finish_entry-last :
      (p : PeerTls Json) (m : Message) (ms : List Message) (ec : ErrorCode) (n : ℕ)
      → is_error ec ≡ false
      → m.shutdown_after ≡ true
      → finish_entry p m ms ec n ≡ close (popped p m ms n) success
  unfolding finish_entry
  finish_entry-last p m ms ec n h s = rw (h, s)

  finish_entry-next :
      (p : PeerTls Json) (m : Message) (ms : List Message) (ec : ErrorCode) (n : ℕ)
      → is_error ec ≡ false
      → m.shutdown_after ≡ false
      → finish_entry p m ms ec n
        ≡ (if not (length ms == 0) then do_write (popped p m ms n) else popped p m ms n)
  unfolding finish_entry
  finish_entry-next p m ms ec n h s = rw (h, s)

  -- A message that has been taken whole leaves the front of the order.
  popped-lost :
      (p : PeerTls Json) (m : Message) (ms : List Message) (n : ℕ) (written : List ℕ)
      → (v : InOrder p written) → p.tx_queue ≡ m ∷ ms
      → p.write_in_flight ≡ true
      → length m.bytes ≤ n
      → let r = popped p m ms n in
        (written ≡ r.sent ++ (queued ms ++ v.discarded)) × (r.tx_queued_bytes ≡ length (queued ms))
  popped-lost p m ms n written v q f h =
      let front : queued p.tx_queue ≡ m.bytes ++ queued ms = ap queued q in
      (
        v.prefix
            ∙ ap (λ (t : List ℕ). p.sent ++ t)
                (v.live (ground arith)
                  ∙ ap (λ (t : List ℕ). t ++ v.discarded) front
                  ∙ append_assoc m.bytes (queued ms) v.discarded
                  ∙ ap (λ (t : List ℕ). t ++ (queued ms ++ v.discarded))
                      (sym (take_all n m.bytes h)))
            ∙ sym (append_assoc p.sent (take n m.bytes) (queued ms ++ v.discarded)),
        omega (arith, v.counted, ap length front, length-append m.bytes (queued ms)),
      )

  -- What an error leaves: the rest of the message is lost with what was behind it.
  flown-lost :
      (p : PeerTls Json) (m : Message) (ms : List Message) (n : ℕ) (written : List ℕ)
      → (v : InOrder p written) → p.tx_queue ≡ m ∷ ms
      → p.write_in_flight ≡ true
      → written ≡ (flown p m n).sent ++ (drop n m.bytes ++ (queued ms ++ v.discarded))
  flown-lost p m ms n written v q f =
      let after = queued ms ++ v.discarded in
      v.prefix
      ∙ ap (λ (t : List ℕ). p.sent ++ t)
          (v.live (ground arith)
            ∙ ap (λ (t : List ℕ). t ++ v.discarded) (ap queued q)
            ∙ append_assoc m.bytes (queued ms) v.discarded
            ∙ ap (λ (t : List ℕ). t ++ after) (sym (take-append-drop n m.bytes))
            ∙ append_assoc (take n m.bytes) (drop n m.bytes) after)
      ∙ sym (append_assoc p.sent (take n m.bytes) (drop n m.bytes ++ after))

  next-InOrder :
      (p : PeerTls Json) (m : Message) (ms : List Message) (n : ℕ) (written : List ℕ)
      → (v : InOrder p written) → p.tx_queue ≡ m ∷ ms
      → p.write_in_flight ≡ true
      → length m.bytes ≤ n
      → let r = popped p m ms n in InOrder (if not (length ms == 0) then do_write r else r) written
  unfolding do_write
  next-InOrder p m [] n written v q f h =
      let (e, c) = popped-lost p m [] n written v q f h in
      record {
        lost = v.discarded;
        discarded = v.discarded;
        prefix = e;
        live = λ k. refl;
        kept = v.kept;
        counted = c;
        bounded = λ o. omega (arith, v.bounded o);
        idle = λ o k. refl;
        flying = λ k. cc;
      }
  next-InOrder p m (x ∷ ms) n written v q f h =
      let (e, c) = popped-lost p m (x ∷ ms) n written v q f h in
      let more : (length (x ∷ ms) == 0) ≡ false = ground arith in
      rw more (record {
        lost = queued (x ∷ ms) ++ v.discarded;
        discarded = v.discarded;
        prefix = e;
        live = λ k. refl;
        kept = v.kept;
        counted = c;
        bounded = λ o. omega (arith, v.bounded o);
        idle = λ o k. cc;
        flying = λ k. omega arith;
      })

  finish_entry-InOrder :
      (p : PeerTls Json) (m : Message) (ms : List Message) (ec : ErrorCode) (n : ℕ)
      (written : List ℕ)
      → InOrder p written
      → p.tx_queue ≡ m ∷ ms
      → p.write_in_flight ≡ true
      → (is_error ec ≡ false → length m.bytes ≤ n)
      → InOrder (finish_entry p m ms ec n) written
  finish_entry-InOrder p m ms ec n written v q f h = elim (Bool-cases (is_error ec)) [
    | inl e ↦ rw (finish_entry-failed p m ms ec n e) (
        close-InOrder (flown p m n) ec written (drop n m.bytes ++ (queued ms ++ v.discarded))
          v.discarded (flown-lost p m ms n written v q f) (λ k. cc) v.counted (λ k. cc))
    | inr e ↦ elim (Bool-cases m.shutdown_after) [
      | inl s ↦
          let (l, c) = popped-lost p m ms n written v q f (h e) in
          rw (finish_entry-last p m ms ec n e s) (
            close-InOrder (popped p m ms n) success written (queued ms ++ v.discarded) v.discarded l
              (λ k. cc) c (λ k. cc))
      | inr s ↦ rw (finish_entry-next p m ms ec n e s) (next-InOrder p m ms n written v q f (h e))
    ]
  ]

  finish_write-cons :
      (p : PeerTls Json) (ec : ErrorCode) (n : ℕ) (m : Message) (ms : List Message)
      → p.tx_queue ≡ m ∷ ms
      → finish_write p ec n ≡ finish_entry p m ms ec n
  unfolding finish_write
  finish_write-cons p ec n m ms e =
      ap (λ (t : List Message). elim t [ [] ↦ p | y ∷ ys ↦ finish_entry p y ys ec n ]) e

  pub finish_write-InOrder :
      (p : PeerTls Json) (ec : ErrorCode) (n : ℕ) (written : List ℕ)
      → InOrder p written
      → IsCompletion p ec n
      → InOrder (finish_write p ec n) written
  finish_write-InOrder p ec n written v c = go p.tx_queue refl
    where
      go : (queue : List Message) → p.tx_queue ≡ queue → InOrder (finish_write p ec n) written
      go [] e = absurd (omega (arith, v.flying c.in_flight, ap length e))
      go (m ∷ ms) e =
          subst (λ (t : PeerTls Json). InOrder t written) (sym (finish_write-cons p ec n m ms e))
            (finish_entry-InOrder p m ms ec n written v e c.in_flight (c.whole m ms e))
