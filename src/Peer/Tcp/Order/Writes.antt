-- ===== src/Peer/Tcp/Order/Writes.antt =====
-- A call of `write` keeps the order.
use native.Mathlib.Decide.{dec_lt}
use ws_streaming.Prelude.{
  ℕ, ◌≤◌, ◌<◌, ◌≡◌, refl, sym, ap, ◌∙◌, List, [], ◌++◌, Bool, true, false, inl, inr, arith, length,
  take, drop, append_assoc, append-nil, take-append-drop, take_all, take_zero, Bool-cases, ◌==◌,
  ltb, subst, if◌then◌else◌,
}
use ws_streaming.Buffer
use ws_streaming.Buffer.{DynamicBuffer, empty}
use ws_streaming.Buffer.Copy.{BufferCopy}
use ws_streaming.Buffer.Invariant.{IsValid, contents}
use ws_streaming.Buffer.Write.{write-contents}
use ws_streaming.Peer.Effects.{success, no_buffer_space}
use ws_streaming.Peer.Tcp.{Peer, Answer, is_genuine, close, do_wait_tx, enqueue, write}
use ws_streaming.Peer.Tcp.Order.State.{IsAnswer, InOrder, close-InOrder, error_of_genuine}

module _ (copy : BufferCopy) {Json : Type 0} where
  enqueue_full :
      (p : Peer Json) (bytes : List ℕ) (after : Bool)
      → let (tx, taken) = Buffer.write copy p.tx_buffer bytes in
        ltb taken (length bytes) ≡ true
        → enqueue copy p bytes after ≡ close (record p { tx_buffer = tx }) no_buffer_space
  unfolding enqueue
  enqueue_full p bytes after h = rw h

  enqueue_fields :
      (p : Peer Json) (bytes : List ℕ) (after : Bool)
      → let (tx, taken) = Buffer.write copy p.tx_buffer bytes in
        ltb taken (length bytes) ≡ false
        → let q = enqueue copy p bytes after in
          (q.is_closed ≡ p.is_closed)
          × (q.sent ≡ p.sent)
          × (q.tx_buffer ≡ tx)
          × (q.waiting_tx ≡ true)
  unfolding enqueue do_wait_tx
  enqueue_fields p bytes after h = ground arith

  enqueue-InOrder :
      (p : Peer Json) (bytes : List ℕ) (after : Bool) (written : List ℕ)
      → InOrder p written
      → InOrder (enqueue copy p bytes after) (written ++ bytes)
  enqueue-InOrder p bytes after written v =
      let out = Buffer.write copy p.tx_buffer bytes in
      let (valid, holds, count) = write-contents copy p.tx_buffer bytes v.valid in
      let all : written ++ bytes ≡ p.sent ++ (v.lost ++ bytes) =
        ap (λ (t : List ℕ). t ++ bytes) v.prefix ∙ append_assoc p.sent v.lost bytes in
      elim (Bool-cases (ltb out.1 (length bytes))) [
        | inl full ↦ rw (enqueue_full p bytes after full) (
            close-InOrder (record p { tx_buffer = out.0 }) no_buffer_space (written ++ bytes)
              (v.lost ++ bytes) valid all)
        | inr fits ↦
            let (shut, same, tx, waits) = enqueue_fields p bytes after fits in
            let n : length bytes ≤ out.1 = ground arith in
            record {
              valid = subst IsValid (sym tx) valid;
              lost = v.lost ++ bytes;
              prefix = all ∙ ap (λ (t : List ℕ). t ++ (v.lost ++ bytes)) (sym same);
              whole = λ h.
                  ap (λ (t : List ℕ). t ++ bytes) (v.whole (sym shut ∙ h))
                  ∙ ap (λ (t : List ℕ). contents p.tx_buffer ++ t) (sym (take_all out.1 bytes n))
                  ∙ sym holds
                  ∙ ap contents (sym tx);
              idle = λ h w. cc;
            }
      ]

  -- The branches of `write` for a socket that is not waited for.
  write-waiting :
      (p : Peer Json) (bytes : List ℕ) (after : Bool) (a : Answer)
      → p.waiting_tx ≡ true
      → write copy p bytes after a ≡ enqueue copy p bytes after
  unfolding write
  write-waiting p bytes after a w = rw w

  abbrev took : Peer Json → List ℕ → ℕ → Peer Json
  took p bytes n = record p { sent = p.sent ++ take n bytes }

  write-error :
      (p : Peer Json) (bytes : List ℕ) (after : Bool) (a : Answer)
      → p.waiting_tx ≡ false
      → is_genuine a.code ≡ true
      → write copy p bytes after a ≡ close (took p bytes a.bytes_sent) a.code
  unfolding write
  write-error p bytes after a w e = rw (w, e)

  write-part :
      (p : Peer Json) (bytes : List ℕ) (after : Bool) (a : Answer)
      → p.waiting_tx ≡ false
      → is_genuine a.code ≡ false
      → a.bytes_sent < length bytes
      → write copy p bytes after a
        ≡ enqueue copy (took p bytes a.bytes_sent) (drop a.bytes_sent bytes) after
  unfolding write
  write-part p bytes after a w e h =
      let more : (a.bytes_sent == length bytes) ≡ false = ground arith in rw (w, e, more)

  write-all :
      (p : Peer Json) (bytes : List ℕ) (after : Bool) (a : Answer)
      → p.waiting_tx ≡ false
      → is_genuine a.code ≡ false
      → a.bytes_sent ≡ length bytes
      → write copy p bytes after a
        ≡ (if after then close (took p bytes a.bytes_sent) success else took p bytes a.bytes_sent)
  unfolding write
  write-all p bytes after a w e h =
      let done : (a.bytes_sent == length bytes) ≡ true = ground arith in rw (w, e, done)

  abbrev took-InOrder :
      (p : Peer Json) (bytes : List ℕ) (n : ℕ) (written : List ℕ)
      → InOrder p written
      → p.waiting_tx ≡ false
      → p.is_closed ≡ false
      → InOrder (took p bytes n) (written ++ take n bytes)
  took-InOrder p bytes n written v w c =
      let none_left : v.lost ≡ [] = v.idle c w in
      record {
        valid = v.valid;
        lost = [];
        prefix =
            ap (λ (t : List ℕ). t ++ take n bytes)
              (v.prefix ∙ ap (λ (t : List ℕ). p.sent ++ t) none_left ∙ append-nil p.sent)
            ∙ sym (append-nil (p.sent ++ take n bytes));
        whole = λ h. sym none_left ∙ v.whole h;
        idle = λ h i. refl;
      }

  write_open-InOrder :
      (p : Peer Json) (bytes : List ℕ) (after : Bool) (a : Answer) (written : List ℕ)
      → InOrder p written
      → p.waiting_tx ≡ false
      → is_genuine a.code ≡ false
      → IsAnswer p bytes a
      → p.is_closed ≡ false
      → InOrder (write copy p bytes after a) (written ++ bytes)
  write_open-InOrder p bytes after a written v w e ans c =
      let n = a.bytes_sent in
      let t : InOrder (took p bytes n) (written ++ take n bytes) =
        took-InOrder p bytes n written v w c in
      elim (dec_lt n (length bytes)) [
        | yes less ↦ rw (write-part p bytes after a w e less) (
            subst (InOrder (enqueue copy (took p bytes n) (drop n bytes) after))
              (append_assoc written (take n bytes) (drop n bytes)
                ∙ ap (λ (u : List ℕ). written ++ u) (take-append-drop n bytes))
              (enqueue-InOrder (took p bytes n) (drop n bytes) after (written ++ take n bytes) t))
        | no more ↦
            let all : n ≡ length bytes = omega (arith, ans.partial) in
            let t' : InOrder (took p bytes n) (written ++ bytes) =
              subst (λ (u : List ℕ). InOrder (took p bytes n) (written ++ u))
                (take_all n bytes (omega arith)) t in
            rw (write-all p bytes after a w e all)
              (elim after
                as (λ k.
                  InOrder (if k then close (took p bytes n) success else took p bytes n)
                    (written ++ bytes)) [
                      | true ↦
                          close-InOrder (took p bytes n) success (written ++ bytes) t'.lost t'.valid
                            t'.prefix
                      | false ↦ t'
                    ])
      ]

  pub write-InOrder :
      (p : Peer Json) (bytes : List ℕ) (after : Bool) (a : Answer) (written : List ℕ)
      → InOrder p written
      → IsAnswer p bytes a
      → InOrder (write copy p bytes after a) (written ++ bytes)
  write-InOrder p bytes after a written v ans = elim (Bool-cases p.waiting_tx) [
    | inl w ↦ rw (write-waiting p bytes after a w) (enqueue-InOrder p bytes after written v)
    | inr w ↦ elim (Bool-cases (is_genuine a.code)) [
      | inl e ↦ rw (write-error p bytes after a w e) (
          close-InOrder (took p bytes a.bytes_sent) a.code (written ++ bytes) (v.lost ++ bytes)
            v.valid
            (ap (λ (t : List ℕ). t ++ bytes) v.prefix
              ∙ append_assoc p.sent v.lost bytes
              ∙ ap (λ (t : List ℕ). t ++ (v.lost ++ bytes))
                  (sym (append-nil p.sent)
                    ∙ ap (λ (t : List ℕ). p.sent ++ t)
                        (sym (
                          take_zero a.bytes_sent bytes
                            (ans.none_on_error (error_of_genuine a.code e)))))))
      | inr e ↦
          write_open-InOrder p bytes after a written v w e ans (elim (Bool-cases p.is_closed) [
            | inl c ↦ (let r = ans.refused c in absurd cc)
            | inr c ↦ c
          ])
    ]
  ]
