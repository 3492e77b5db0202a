-- ===== src/Peer/Tcp/Order.antt =====
-- What the socket takes is what was written, in order, whatever the socket takes at a time: the
-- runs of `peer::write`, `peer::finish_wait_tx` and `close` in every order.
pub mod State
mod Writes
mod Waits
use Prim.Native.String.{String}
use mathlib.Core.Path.{ap₂}
use native.Mathlib.Decide.{dec_lt}
use ws_streaming.Prelude.{
  ℕ, zero, suc, ◌+◌, ◌-◌, ◌*◌, ◌≤◌, ◌<◌, ◌≡◌, ◌≢◌, refl, sym, ap, ◌∙◌, List, [], ◌∷◌, ◌++◌, Bool,
  true, false, ◌&&◌, not, ◌⊎◌, inl, inr, arith, length, take, drop, length-append, length-take,
  length-drop, append_assoc, append-nil, take-append-drop, take_all, drop_all, take_zero, drop_zero,
  take-append_le, drop-append_le, Bool-cases, ◌==◌, ltb, min, subst, if◌then◌else◌,
}
use ws_streaming.Buffer
use ws_streaming.Buffer.{DynamicBuffer, empty}
use ws_streaming.Buffer.Copy.{BufferCopy}
use ws_streaming.Buffer.Memory.{flat}
use ws_streaming.Buffer.Invariant.{IsValid, contents, length-contents}
use ws_streaming.Buffer.Consume.{consume-contents}
use ws_streaming.Buffer.Write.{write-contents}
use ws_streaming.Buffer.Gather.{buffers-contents}
use ws_streaming.Peer.Effects.{
  ErrorCode, is_error, success, no_buffer_space, operation_not_supported, would_block, other,
}
use ws_streaming.Peer.Base.{BasePeer}
use ws_streaming.Peer.Tcp.{
  Peer, Answer, is_genuine, close, do_wait_tx, enqueue, write, finish_wait_tx,
}
use ws_streaming.Peer.Tcp.{peer}
use ws_streaming.Peer.Tcp.Order.State.{IsAnswer, InOrder, close-InOrder}
use ws_streaming.Peer.Tcp.Order.Writes.{write-InOrder}
use ws_streaming.Peer.Tcp.Order.Waits.{finish_wait_tx-InOrder}
use ws_streaming.Buffer.Invariant.{dynamic_buffer-IsValid}

-- The states that a peer comes to from `p`, with the bytes written on the way.
pub data Reach (copy : BufferCopy) {Json : Type 0} (p : Peer Json)
    : Peer Json → List ℕ → Type 0 where
  start : Reach copy p p []
  writes :
      (q : Peer Json) (written bytes : List ℕ) (after : Bool) (a : Answer)
      → Reach copy p q written
      → IsAnswer q bytes a
      → Reach copy p (write copy q bytes after a) (written ++ bytes)
  ready :
      (q : Peer Json) (written : List ℕ) (wait_code : ErrorCode) (a : Answer)
      → Reach copy p q written
      → IsAnswer q (flat (Buffer.buffers q.tx_buffer)) a
      → Reach copy p (finish_wait_tx q wait_code a) written
  closes :
      (q : Peer Json) (written : List ℕ) (ec : ErrorCode)
      → Reach copy p q written
      → Reach copy p (close q ec) written

peer-InOrder :
    {Json : Type 0} (use_tcp_protocol : Bool) (rx_size tx_size : ℕ)
    → InOrder {Json = Json} (peer use_tcp_protocol rx_size tx_size) []
unfolding peer
peer-InOrder use_tcp_protocol rx_size tx_size =
    let (valid, none, most) = dynamic_buffer-IsValid tx_size (64 * 1024) in
    record { valid = valid; lost = []; prefix = refl; whole = λ h. sym none; idle = λ h w. refl }

Reach-InOrder :
    (copy : BufferCopy) {Json : Type 0} (p q : Peer Json) (written : List ℕ)
    → InOrder p []
    → Reach copy p q written
    → InOrder q written
Reach-InOrder copy p _ _ v start = v
Reach-InOrder copy p _ _ v (writes q written bytes after a r ans) =
    write-InOrder copy q bytes after a written (Reach-InOrder copy p q written v r) ans
Reach-InOrder copy p _ _ v (ready q written wait_code a r ans) =
    finish_wait_tx-InOrder q wait_code a written (Reach-InOrder copy p q written v r) ans
Reach-InOrder copy p _ _ v (closes q written ec r) =
    let i = Reach-InOrder copy p q written v r in close-InOrder q ec written i.lost i.valid i.prefix

-- From a new peer, the bytes that the socket has taken are a first part of the bytes written, in
-- order.
pub sent-written :
    (copy : BufferCopy) {Json : Type 0} (use_tcp_protocol : Bool) (rx_size tx_size : ℕ)
    (q : Peer Json) (written : List ℕ)
    → Reach copy (peer use_tcp_protocol rx_size tx_size) q written
    → (lost : List ℕ) × (written ≡ q.sent ++ lost)
sent-written copy use_tcp_protocol rx_size tx_size q written r =
    let i =
      Reach-InOrder copy (peer use_tcp_protocol rx_size tx_size) q written
        (peer-InOrder use_tcp_protocol rx_size tx_size) r in
    (i.lost, i.prefix)

-- From a new peer, through any sequence of writes, write-wait completions and closings, while the
-- connection is open the bytes written are, in order, the bytes the socket has taken followed by
-- what the transmit buffer holds.
pub sent-contents :
    (copy : BufferCopy) {Json : Type 0} (use_tcp_protocol : Bool) (rx_size tx_size : ℕ)
    (q : Peer Json) (written : List ℕ)
    → Reach copy (peer use_tcp_protocol rx_size tx_size) q written
    → q.is_closed ≡ false
    → written ≡ q.sent ++ contents q.tx_buffer
sent-contents copy use_tcp_protocol rx_size tx_size q written r o =
    let i =
      Reach-InOrder copy (peer use_tcp_protocol rx_size tx_size) q written
        (peer-InOrder use_tcp_protocol rx_size tx_size) r in
    i.prefix ∙ ap (λ (t : List ℕ). q.sent ++ t) (i.whole o)

-- From a new peer, while the connection is open and no write wait is active, the socket has taken
-- all the bytes written.
pub sent_all :
    (copy : BufferCopy) {Json : Type 0} (use_tcp_protocol : Bool) (rx_size tx_size : ℕ)
    (q : Peer Json) (written : List ℕ)
    → Reach copy (peer use_tcp_protocol rx_size tx_size) q written
    → q.is_closed ≡ false
    → q.waiting_tx ≡ false
    → written ≡ q.sent
sent_all copy use_tcp_protocol rx_size tx_size q written r o w =
    let i =
      Reach-InOrder copy (peer use_tcp_protocol rx_size tx_size) q written
        (peer-InOrder use_tcp_protocol rx_size tx_size) r in
    i.prefix ∙ ap (λ (t : List ℕ). q.sent ++ t) (i.idle o w) ∙ append-nil q.sent
