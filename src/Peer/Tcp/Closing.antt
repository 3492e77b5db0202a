-- ===== src/Peer/Tcp/Closing.antt =====
-- `base_peer::close` as the transmit side calls it: `on_closed` is raised once.
use ws_streaming.Prelude.{
  ℕ, ◌≡◌, refl, List, [], ◌∷◌, ◌++◌, Bool, true, false, not, ◌&&◌, ◌==◌, if◌then◌else◌, arith,
  length, length-append, drop, take,
}
use ws_streaming.Buffer
use ws_streaming.Buffer.Copy.{BufferCopy}
use ws_streaming.Buffer.Memory.{flat}
use ws_streaming.Peer.Effects.{ErrorCode, is_error, success}
use ws_streaming.Peer.Base.{base_peer}
use ws_streaming.Peer.Tcp.{
  Peer, Answer, is_genuine, peer, close, do_wait_tx, enqueue, write, finish_wait_tx,
}
use ws_streaming.Peer.Tcp.Order.{Reach, start, writes, ready, closes}

-- The slots of `on_closed` have been called once if the peer is closed, and not at all if it is open.
record IsOnce {Json : Type 0} (p : Peer Json) : Type 0 where
  once : length p.closed ≡ (if p.is_closed then 1 else 0)

module _ {Json : Type 0} where
  close-IsOnce : (p : Peer Json) (ec : ErrorCode) → IsOnce p → IsOnce (close p ec)
  unfolding close
  close-IsOnce p ec h = record { once = ground (arith, h.once, length-append p.closed (ec ∷ [])) }

  if-IsOnce : (b : Bool) (p q : Peer Json) → IsOnce p → IsOnce q → IsOnce (if b then p else q)
  if-IsOnce true p q h k = h
  if-IsOnce false p q h k = k

  enqueue-IsOnce :
      (copy : BufferCopy) (p : Peer Json) (bytes : List ℕ) (after : Bool)
      → IsOnce p
      → IsOnce (enqueue copy p bytes after)
  unfolding enqueue do_wait_tx
  enqueue-IsOnce copy p bytes after h =
      let q : Peer Json = record p { tx_buffer = (Buffer.write copy p.tx_buffer bytes).0 } in
      if-IsOnce _ _ _ (close-IsOnce q _ (record { once = h.once }))
        (if-IsOnce p.waiting_tx _ _ (record { once = h.once }) (record { once = h.once }))

  write-IsOnce :
      (copy : BufferCopy) (p : Peer Json) (bytes : List ℕ) (after : Bool) (a : Answer)
      → IsOnce p
      → IsOnce (write copy p bytes after a)
  unfolding write
  write-IsOnce copy p bytes after a h =
      let q : Peer Json = record p { sent = p.sent ++ take a.bytes_sent bytes } in
      if-IsOnce p.waiting_tx _ _ (enqueue-IsOnce copy p bytes after h) (
        if-IsOnce (is_genuine a.code) _ _ (close-IsOnce q a.code (record { once = h.once })) (
          if-IsOnce (a.bytes_sent == length bytes) _ _
            (if-IsOnce after _ _ (close-IsOnce q _ (record { once = h.once }))
              (record { once = h.once }))
            (enqueue-IsOnce copy q (drop a.bytes_sent bytes) after (record { once = h.once }))))

  finish_wait_tx-IsOnce :
      (p : Peer Json) (wait_code : ErrorCode) (a : Answer)
      → IsOnce p
      → IsOnce (finish_wait_tx p wait_code a)
  unfolding finish_wait_tx do_wait_tx
  finish_wait_tx-IsOnce p wait_code a h =
      let d : Peer Json = record p {
        waiting_tx = false;
        sent = p.sent ++ take a.bytes_sent (flat (Buffer.buffers p.tx_buffer));
        tx_buffer = Buffer.consume p.tx_buffer a.bytes_sent;
      } in
      let k : IsOnce d = record { once = h.once } in
      let k' : IsOnce (do_wait_tx d) = record { once = h.once } in
      if-IsOnce (is_error wait_code) _ _
        (close-IsOnce (record p { waiting_tx = false }) wait_code (record { once = h.once }))
        (if-IsOnce (is_genuine a.code) _ _ (close-IsOnce _ a.code (record { once = h.once })) (
          if-IsOnce (d.shutdown_when_empty && Buffer.empty d.tx_buffer) _ _
            (close-IsOnce d success k)
            (if-IsOnce (not (Buffer.empty d.tx_buffer)) (do_wait_tx d) d k' k)))

  Reach-IsOnce :
      (copy : BufferCopy) (p q : Peer Json) (written : List ℕ)
      → IsOnce p
      → Reach copy p q written
      → IsOnce q
  Reach-IsOnce copy p _ _ h start = h
  Reach-IsOnce copy p _ _ h (writes q written bytes after a r ans) =
      write-IsOnce copy q bytes after a (Reach-IsOnce copy p q written h r)
  Reach-IsOnce copy p _ _ h (ready q written wait_code a r ans) =
      finish_wait_tx-IsOnce q wait_code a (Reach-IsOnce copy p q written h r)
  Reach-IsOnce copy p _ _ h (closes q written ec r) =
      close-IsOnce q ec (Reach-IsOnce copy p q written h r)

  -- From a new peer, `on_closed` has been raised exactly once if the peer has been closed, and
  -- not before.
  pub on_closed_once :
      (copy : BufferCopy) (use_tcp_protocol : Bool) (rx_size tx_size : ℕ) (q : Peer Json)
      (written : List ℕ)
      → Reach copy (peer use_tcp_protocol rx_size tx_size) q written
      → length q.closed ≡ (if q.is_closed then 1 else 0)
  unfolding peer base_peer
  on_closed_once copy use_tcp_protocol rx_size tx_size q written r =
      (Reach-IsOnce copy (peer use_tcp_protocol rx_size tx_size) q written (record { once = refl })
        r).once
