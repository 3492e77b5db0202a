-- ===== src/Peer/Tls/Order/Writes.antt =====
-- `peer_tls::write` keeps the order of the transmit queue.
use ws_streaming.Prelude.{
  ℕ, ◌+◌, ◌<◌, ◌≡◌, refl, sym, ap, ◌∙◌, List, [], ◌∷◌, ◌++◌, Bool, true, false, inl, inr, arith,
  length, ltb, length-append, append_assoc, append-nil, Bool-cases,
}
use ws_streaming.Peer.Effects.{no_buffer_space}
use ws_streaming.Peer.Tls.{Message, PeerTls, close, do_write, write}
use ws_streaming.Peer.Tls.Order.State.{queued, queued-append, InOrder, close-InOrder}

module _ {Json : Type 0} where
  abbrev pushed : PeerTls Json → List ℕ → Bool → PeerTls Json
  pushed p bytes after = record p {
    tx_queued_bytes = p.tx_queued_bytes + length bytes;
    tx_queue = p.tx_queue ++ (record { bytes = bytes; shutdown_after = after } ∷ []);
  }

  write-closed :
      (p : PeerTls Json) (bytes : List ℕ) (after : Bool)
      → p.is_closed ≡ true
      → write p bytes after ≡ p
  unfolding write
  write-closed p bytes after h = rw h

  write-over :
      (p : PeerTls Json) (bytes : List ℕ) (after : Bool)
      → p.is_closed ≡ false
      → ltb p.tx_buffer_limit (p.tx_queued_bytes + length bytes) ≡ true
      → write p bytes after ≡ close (pushed p bytes after) no_buffer_space
  unfolding write
  write-over p bytes after h k = rw (h, k)

  -- In both cases a write is in flight afterwards.
  write-queued :
      (p : PeerTls Json) (bytes : List ℕ) (after : Bool)
      → p.is_closed ≡ false
      → ltb p.tx_buffer_limit (p.tx_queued_bytes + length bytes) ≡ false
      → write p bytes after ≡ do_write (pushed p bytes after)
  unfolding write do_write
  write-queued p bytes after h k = elim (Bool-cases p.write_in_flight) [
    | inl f ↦ rw (h, k, f)
    | inr f ↦ rw (h, k, f)
  ]

  -- The order after the message has been queued.
  pushed-lost :
      (p : PeerTls Json) (bytes : List ℕ) (after : Bool) (written : List ℕ)
      → (v : InOrder p written) → p.is_closed ≡ false
      → let q = pushed p bytes after in
        (written ++ bytes ≡ q.sent ++ (v.lost ++ bytes))
        × (v.lost ++ bytes ≡ queued q.tx_queue ++ [])
        × (q.tx_queued_bytes ≡ length (queued q.tx_queue))
        × (0 < length q.tx_queue)
  pushed-lost p bytes after written v o =
      let m : Message = record { bytes = bytes; shutdown_after = after } in
      let tail = queued-append p.tx_queue m in
      (
        ap (λ (t : List ℕ). t ++ bytes) v.prefix ∙ append_assoc p.sent v.lost bytes,
        ap (λ (t : List ℕ). t ++ bytes)
              (v.live (rw o)
                ∙ ap (λ (t : List ℕ). queued p.tx_queue ++ t) (v.kept o)
                ∙ append-nil (queued p.tx_queue))
            ∙ sym tail
            ∙ sym (append-nil (queued (p.tx_queue ++ (m ∷ [])))),
        omega (arith, v.counted, ap length tail, length-append (queued p.tx_queue) bytes),
        omega (arith, length-append p.tx_queue (m ∷ [])),
      )

  pub write-InOrder :
      (p : PeerTls Json) (bytes : List ℕ) (after : Bool) (written : List ℕ)
      → InOrder p written
      → InOrder (write p bytes after) (written ++ bytes)
  unfolding do_write
  write-InOrder p bytes after written v = elim (Bool-cases p.is_closed) [
    | inl c ↦ rw (write-closed p bytes after c) (record {
      lost = v.lost ++ bytes;
      discarded = v.discarded ++ bytes;
      prefix = ap (λ (t : List ℕ). t ++ bytes) v.prefix ∙ append_assoc p.sent v.lost bytes;
      live = λ h.
          ap (λ (t : List ℕ). t ++ bytes) (v.live h)
          ∙ append_assoc (queued p.tx_queue) v.discarded bytes;
      kept = λ h. cc;
      counted = v.counted;
      bounded = v.bounded;
      idle = v.idle;
      flying = v.flying;
    })
    | inr o ↦
        let (e, l, c, f) = pushed-lost p bytes after written v o in
        elim (Bool-cases (ltb p.tx_buffer_limit (p.tx_queued_bytes + length bytes))) [
          | inl over ↦ rw (write-over p bytes after o over) (
              close-InOrder (pushed p bytes after) no_buffer_space (written ++ bytes)
                (v.lost ++ bytes) [] e (λ h. l) c (λ h. f))
          | inr fits ↦ rw (write-queued p bytes after o fits) (record {
            lost = v.lost ++ bytes;
            discarded = [];
            prefix = e;
            live = λ h. l;
            kept = λ h. refl;
            counted = c;
            bounded = λ h. ground arith;
            idle = λ h k. cc;
            flying = λ h. f;
          })
        ]
  ]
