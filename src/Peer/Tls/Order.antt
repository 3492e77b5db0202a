-- ===== src/Peer/Tls/Order.antt =====
-- The transmit queue of a TLS peer: the runs of `peer_tls::write`, `peer_tls::finish_write` and
-- `close` in every order.
pub mod State
pub mod Writes
pub mod Completions
use ws_streaming.Prelude.{
  ℕ, zero, suc, ◌+◌, ◌-◌, ◌≤◌, ◌<◌, ◌≡◌, refl, sym, ap, ◌∙◌, List, [], ◌∷◌, ◌++◌, Bool, true, false,
  ◌&&◌, not, inl, inr, arith, length, take, drop, take-append-drop, ◌==◌, ltb, length-append,
  append_assoc, append-nil, take_all, Bool-cases, if◌then◌else◌, subst,
}
use ws_streaming.Peer.Effects.{ErrorCode, is_error, success, no_buffer_space}
use ws_streaming.Peer.Tls.{
  Message, PeerTls, peer_tls, close, do_write, write, finish_entry, finish_write,
}
use ws_streaming.Peer.Tls.Order.State.{queued, IsCompletion, InOrder, close-InOrder}
use ws_streaming.Peer.Tls.Order.Writes.{write-InOrder}
use ws_streaming.Peer.Tls.Order.Completions.{finish_write-InOrder}

-- The states that a peer comes to from `p`, with the bytes written on the way.
pub data Reach {Json : Type 0} (p : PeerTls Json) : PeerTls Json → List ℕ → Type 0 where
  start : Reach p p []
  writes :
      (q : PeerTls Json) (written bytes : List ℕ) (after : Bool)
      → Reach p q written
      → Reach p (write q bytes after) (written ++ bytes)
  completes :
      (q : PeerTls Json) (written : List ℕ) (ec : ErrorCode) (n : ℕ)
      → Reach p q written
      → IsCompletion q ec n
      → Reach p (finish_write q ec n) written
  closes :
      (q : PeerTls Json) (written : List ℕ) (ec : ErrorCode)
      → Reach p q written
      → Reach p (close q ec) written

module _ {Json : Type 0} where
  peer_tls-InOrder :
      (use_tcp_protocol : Bool) (rx_size tx_size : ℕ)
      → InOrder {Json = Json} (peer_tls use_tcp_protocol rx_size tx_size) []
  unfolding peer_tls
  peer_tls-InOrder use_tcp_protocol rx_size tx_size = record {
    lost = [];
    discarded = [];
    prefix = refl;
    live = λ h. refl;
    kept = λ h. refl;
    counted = refl;
    bounded = λ h. omega arith;
    idle = λ h k. refl;
    flying = λ h. cc;
  }

  Reach-InOrder :
      (p q : PeerTls Json) (written : List ℕ) → InOrder p [] → Reach p q written → InOrder q written
  Reach-InOrder p _ _ v start = v
  Reach-InOrder p _ _ v (writes q written bytes after r) =
      write-InOrder q bytes after written (Reach-InOrder p q written v r)
  Reach-InOrder p _ _ v (completes q written ec n r c) =
      finish_write-InOrder q ec n written (Reach-InOrder p q written v r) c
  Reach-InOrder p _ _ v (closes q written ec r) =
      let i = Reach-InOrder p q written v r in
      close-InOrder q ec written i.lost i.discarded i.prefix (λ f. i.live (ground arith)) i.counted
        i.flying

  module _ (use_tcp_protocol : Bool) (rx_size tx_size : ℕ) (q : PeerTls Json) (written : List ℕ)
      (r : Reach (peer_tls use_tcp_protocol rx_size tx_size) q written) where
    in_order : InOrder q written
    in_order =
        Reach-InOrder (peer_tls use_tcp_protocol rx_size tx_size) q written
          (peer_tls-InOrder use_tcp_protocol rx_size tx_size) r

    -- From a new TLS peer, through any sequence of writes, write completions and closings, while
    -- the connection is open the bytes written are, in order, the bytes that the stream has taken
    -- followed by the queue, whose size is the count kept and within the limit.
    pub sent-queued :
        q.is_closed ≡ false
        → (written ≡ q.sent ++ queued q.tx_queue)
          × (q.tx_queued_bytes ≡ length (queued q.tx_queue))
          × (q.tx_queued_bytes ≤ q.tx_buffer_limit)
    sent-queued o = (
      in_order.prefix
          ∙ ap (λ (t : List ℕ). q.sent ++ t)
              (in_order.live (rw o)
                ∙ ap (λ (t : List ℕ). queued q.tx_queue ++ t) (in_order.kept o)
                ∙ append-nil (queued q.tx_queue)),
      in_order.counted,
      in_order.bounded o,
    )

    -- From a new TLS peer, while the connection is open and no write is in flight, the stream has
    -- taken all the bytes written.
    pub sent_whole : q.is_closed ≡ false → q.write_in_flight ≡ false → written ≡ q.sent
    sent_whole o f =
        (sent-queued o).0
        ∙ ap (λ (t : List ℕ). q.sent ++ t) (ap queued (in_order.idle o f))
        ∙ append-nil q.sent

    -- Closed or not, the bytes that the stream has taken are a first part of those written.
    pub sent-lost : (lost : List ℕ) × (written ≡ q.sent ++ lost)
    sent-lost = (in_order.lost, in_order.prefix)
