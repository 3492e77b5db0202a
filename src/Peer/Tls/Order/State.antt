-- ===== src/Peer/Tls/Order/State.antt =====
-- What holds of the transmit queue of a TLS peer between its operations, and that closing keeps it.
use ws_streaming.Prelude.{
  ℕ, ◌≤◌, ◌<◌, ◌≡◌, sym, ap, ◌∙◌, List, [], ◌∷◌, ◌++◌, true, false, ◌&&◌, not, arith, length,
  append_assoc, append-nil,
}
use ws_streaming.Peer.Effects.{ErrorCode, is_error}
use ws_streaming.Peer.Tls.{Message, PeerTls, close}

-- The bytes of the queue in order.
abbrev pub queued : List Message → List ℕ
queued [] = []
queued (m ∷ ms) = m.bytes ++ queued ms

pub queued-append :
    (ms : List Message) (m : Message) → queued (ms ++ (m ∷ [])) ≡ queued ms ++ m.bytes
queued-append [] m = append-nil m.bytes
queued-append (x ∷ ms) m =
    ap (λ (t : List ℕ). x.bytes ++ t) (queued-append ms m)
    ∙ sym (append_assoc x.bytes (queued ms) m.bytes)

-- What is documented of `async_write`: it completes with a number of the bytes offered, which is all
-- of them if it reports no error.
pub record IsCompletion {Json : Type 0} (p : PeerTls Json) (ec : ErrorCode) (n : ℕ) : Type 0 where
  pub in_flight : p.write_in_flight ≡ true
  pub whole :
      (m : Message) (ms : List Message)
      → p.tx_queue ≡ m ∷ ms
      → is_error ec ≡ false
      → length m.bytes ≤ n

-- `written` are the bytes of all the calls of `write`, in order.
pub record InOrder {Json : Type 0} (p : PeerTls Json) (written : List ℕ) : Type 0 where
  pub lost : List ℕ
  pub discarded : List ℕ
  pub prefix : written ≡ p.sent ++ lost
  pub live : (p.is_closed && not p.write_in_flight) ≡ false → lost ≡ queued p.tx_queue ++ discarded
  pub kept : p.is_closed ≡ false → discarded ≡ []
  pub counted : p.tx_queued_bytes ≡ length (queued p.tx_queue)
  pub bounded : p.is_closed ≡ false → p.tx_queued_bytes ≤ p.tx_buffer_limit
  pub idle : p.is_closed ≡ false → p.write_in_flight ≡ false → p.tx_queue ≡ []
  pub flying : p.write_in_flight ≡ true → 0 < length p.tx_queue

module _ {Json : Type 0} where
  pub close_fields :
      (p : PeerTls Json) (ec : ErrorCode)
      → let q = close p ec in
        (q.is_closed ≡ true)
        × (q.sent ≡ p.sent)
        × (q.tx_queue ≡ p.tx_queue)
        × (q.tx_queued_bytes ≡ p.tx_queued_bytes)
        × (q.write_in_flight ≡ p.write_in_flight)
  unfolding close
  close_fields p ec = ground arith

  pub close-InOrder :
      (p : PeerTls Json) (ec : ErrorCode) (written lost discarded : List ℕ)
      → written ≡ p.sent ++ lost
      → (p.write_in_flight ≡ true → lost ≡ queued p.tx_queue ++ discarded)
      → p.tx_queued_bytes ≡ length (queued p.tx_queue)
      → (p.write_in_flight ≡ true → 0 < length p.tx_queue)
      → InOrder (close p ec) written
  close-InOrder p ec written lost discarded e l c f =
      let (shut, same, queue, count, flight) = close_fields p ec in
      record {
        lost = lost;
        discarded = discarded;
        prefix = e ∙ ap (λ (t : List ℕ). t ++ lost) (sym same);
        live = λ h. ground arith;
        kept = λ h. cc;
        counted = count ∙ c ∙ ap (λ (t : List Message). length (queued t)) (sym queue);
        bounded = λ h. cc;
        idle = λ h. cc;
        flying = λ h. ground arith;
      }
