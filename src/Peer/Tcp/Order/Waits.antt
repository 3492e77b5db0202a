-- ===== src/Peer/Tcp/Order/Waits.antt =====
-- The completion of a write wait keeps the order.
use mathlib.Core.Path.{ap₂}
use ws_streaming.Prelude.{
  ℕ, ◌≤◌, ◌≡◌, refl, sym, ap, ◌∙◌, List, [], ◌++◌, Bool, true, false, ◌&&◌, not, inl, inr, length,
  take, append_assoc, append-nil, take-append-drop, take_zero, take-append_le, Bool-cases,
  if◌then◌else◌,
}
use ws_streaming.Buffer
use ws_streaming.Buffer.{DynamicBuffer, empty}
use ws_streaming.Buffer.Memory.{flat}
use ws_streaming.Buffer.Invariant.{IsValid, contents}
use ws_streaming.Buffer.Consume.{consume-contents}
use ws_streaming.Buffer.Gather.{buffers-contents}
use ws_streaming.Peer.Effects.{ErrorCode, is_error, success}
use ws_streaming.Peer.Tcp.{Peer, Answer, is_genuine, close, do_wait_tx, finish_wait_tx}
use ws_streaming.Peer.Tcp.Order.State.{
  IsAnswer, InOrder, close-InOrder, error_of_genuine, empty-contents,
}

module _ {Json : Type 0} where
  -- What a write wait's completion leaves, when it neither fails nor closes the connection.
  abbrev drained : Peer Json → ℕ → Peer Json
  drained p n = record p {
    waiting_tx = false;
    sent = p.sent ++ take n (flat (Buffer.buffers p.tx_buffer));
    tx_buffer = Buffer.consume p.tx_buffer n;
  }

  finish_wait_tx-failed :
      (p : Peer Json) (wait_code : ErrorCode) (a : Answer)
      → is_error wait_code ≡ true
      → finish_wait_tx p wait_code a ≡ close (record p { waiting_tx = false }) wait_code
  unfolding finish_wait_tx
  finish_wait_tx-failed p wait_code a h = rw h

  finish_wait_tx-genuine :
      (p : Peer Json) (wait_code : ErrorCode) (a : Answer)
      → is_error wait_code ≡ false
      → is_genuine a.code ≡ true
      → finish_wait_tx p wait_code a
        ≡ close
            (record p {
              waiting_tx = false;
              sent = p.sent ++ take a.bytes_sent (flat (Buffer.buffers p.tx_buffer));
            })
            a.code
  unfolding finish_wait_tx
  finish_wait_tx-genuine p wait_code a h e = rw (h, e)

  finish_wait_tx-drained :
      (p : Peer Json) (wait_code : ErrorCode) (a : Answer)
      → is_error wait_code ≡ false
      → is_genuine a.code ≡ false
      → let d = drained p a.bytes_sent in
        finish_wait_tx p wait_code a ≡ (
          if d.shutdown_when_empty && empty d.tx_buffer
          then close d success
          else if not (empty d.tx_buffer)
          then do_wait_tx d
          else d)
  unfolding finish_wait_tx
  finish_wait_tx-drained p wait_code a h e = rw (h, e)

  -- What the socket takes of the described bytes is taken from the front of the contents.
  drained-contents :
      (p : Peer Json) (n : ℕ)
      → IsValid p.tx_buffer
      → n ≤ length (flat (Buffer.buffers p.tx_buffer))
      → let d = drained p n in
        IsValid d.tx_buffer × (d.sent ++ contents d.tx_buffer ≡ p.sent ++ contents p.tx_buffer)
  drained-contents p n v h =
      let offered = flat (Buffer.buffers p.tx_buffer) in
      let (tail, split, whole) = buffers-contents p.tx_buffer v in
      let (valid, left) = consume-contents p.tx_buffer n v in
      let front : take n offered ≡ take n (contents p.tx_buffer) =
        sym (ap (take n) split ∙ take-append_le n offered tail h) in
      (
        valid,
        append_assoc p.sent (take n offered) (contents (Buffer.consume p.tx_buffer n))
            ∙ ap (λ (t : List ℕ). p.sent ++ t)
                (ap₂ ◌++◌ front left ∙ take-append-drop n (contents p.tx_buffer)),
      )

  -- The last tests of a completion: what is still held stays next in the order.
  settled-InOrder :
      (d : Peer Json) (written : List ℕ) (shut none_left : Bool)
      → IsValid d.tx_buffer
      → written ≡ d.sent ++ contents d.tx_buffer
      → (none_left ≡ true → contents d.tx_buffer ≡ [])
      → InOrder
          (if shut && none_left then close d success else if not none_left then do_wait_tx d else d)
          written
  unfolding do_wait_tx
  settled-InOrder d written true true v prefix nil =
      close-InOrder d success written (contents d.tx_buffer) v prefix
  settled-InOrder d written false true v prefix nil = record {
    valid = v;
    lost = contents d.tx_buffer;
    prefix = prefix;
    whole = λ o. refl;
    idle = λ o w. nil refl;
  }
  settled-InOrder d written true false v prefix nil = record {
    valid = v;
    lost = contents d.tx_buffer;
    prefix = prefix;
    whole = λ o. refl;
    idle = λ o w. cc;
  }
  settled-InOrder d written false false v prefix nil = record {
    valid = v;
    lost = contents d.tx_buffer;
    prefix = prefix;
    whole = λ o. refl;
    idle = λ o w. cc;
  }

  pub finish_wait_tx-InOrder :
      (p : Peer Json) (wait_code : ErrorCode) (a : Answer) (written : List ℕ)
      → InOrder p written
      → IsAnswer p (flat (Buffer.buffers p.tx_buffer)) a
      → InOrder (finish_wait_tx p wait_code a) written
  finish_wait_tx-InOrder p wait_code a written v ans = elim (Bool-cases (is_error wait_code)) [
    | inl h ↦
        rw (finish_wait_tx-failed p wait_code a h) (
          close-InOrder (record p { waiting_tx = false }) wait_code written v.lost v.valid v.prefix)
    | inr h ↦ elim (Bool-cases (is_genuine a.code)) [
      | inl e ↦
          let offered = flat (Buffer.buffers p.tx_buffer) in
          let q : Peer Json = record p {
            waiting_tx = false;
            sent = p.sent ++ take a.bytes_sent offered;
          } in
          rw (finish_wait_tx-genuine p wait_code a h e) (
            close-InOrder q a.code written v.lost v.valid (
              v.prefix
              ∙ ap (λ (t : List ℕ). t ++ v.lost)
                  (sym (append-nil p.sent)
                    ∙ ap (λ (t : List ℕ). p.sent ++ t)
                        (sym (
                          take_zero a.bytes_sent offered
                            (ans.none_on_error (error_of_genuine a.code e)))))))
      | inr e ↦
          let c : p.is_closed ≡ false = elim (Bool-cases p.is_closed) [
            | inl c ↦ (let r = ans.refused c in absurd cc)
            | inr c ↦ c
          ] in
          let d = drained p a.bytes_sent in
          let (valid, same) = drained-contents p a.bytes_sent v.valid ans.partial in
          let prefix : written ≡ d.sent ++ contents d.tx_buffer =
            v.prefix ∙ ap (λ (t : List ℕ). p.sent ++ t) (v.whole c) ∙ sym same in
          rw (finish_wait_tx-drained p wait_code a h e) (
            settled-InOrder d written d.shutdown_when_empty (empty d.tx_buffer) valid prefix
              (empty-contents d.tx_buffer valid))
    ]
  ]
