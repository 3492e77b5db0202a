-- ===== src/Peer/Tcp/Order/State.antt =====
-- The transmit side of a peer between two operations: what is sent, held and lost.
use ws_streaming.Prelude.{
  ℕ, ◌≤◌, ◌≡◌, refl, sym, ap, ◌∙◌, List, [], ◌∷◌, ◌++◌, true, false, arith, length, subst,
}
use ws_streaming.Buffer.{DynamicBuffer, empty}
use ws_streaming.Buffer.Invariant.{IsValid, contents, length-contents}
use ws_streaming.Peer.Effects.{
  ErrorCode, is_error, success, no_buffer_space, operation_not_supported, would_block, other,
}
use ws_streaming.Peer.Tcp.{Peer, Answer, is_genuine, close}

-- What is documented of `send` on a non-blocking socket: it takes a number of the bytes offered, none if
-- it reports an error, and a closed socket reports one.
pub record IsAnswer {Json : Type 0} (p : Peer Json) (offered : List ℕ) (a : Answer) : Type 0 where
  pub partial : a.bytes_sent ≤ length offered
  pub none_on_error : is_error a.code ≡ true → a.bytes_sent ≡ 0
  pub refused : p.is_closed ≡ true → is_genuine a.code ≡ true

-- `written` are the bytes of all the calls of `write`, in order.
pub record InOrder {Json : Type 0} (p : Peer Json) (written : List ℕ) : Type 0 where
  pub valid : IsValid p.tx_buffer
  pub lost : List ℕ
  pub prefix : written ≡ p.sent ++ lost
  pub whole : p.is_closed ≡ false → lost ≡ contents p.tx_buffer
  pub idle : p.is_closed ≡ false → p.waiting_tx ≡ false → lost ≡ []

pub close_fields :
    {Json : Type 0} (p : Peer Json) (ec : ErrorCode)
    → ((close p ec).is_closed ≡ true)
      × ((close p ec).sent ≡ p.sent)
      × ((close p ec).tx_buffer ≡ p.tx_buffer)
unfolding close
close_fields p ec = ground arith

-- Once the connection is closed the order asks only that nothing was sent out of turn.
pub close-InOrder :
    {Json : Type 0} (p : Peer Json) (ec : ErrorCode) (written lost : List ℕ)
    → IsValid p.tx_buffer
    → written ≡ p.sent ++ lost
    → InOrder (close p ec) written
close-InOrder p ec written lost v e =
    let (shut, same, tx) = close_fields p ec in
    record {
      valid = subst IsValid (sym tx) v;
      lost = lost;
      prefix = e ∙ ap (λ (t : List ℕ). t ++ lost) (sym same);
      whole = λ h. cc;
      idle = λ h. cc;
    }

pub nil_of_length : (xs : List ℕ) → length xs ≡ 0 → xs ≡ []
nil_of_length [] e = refl
nil_of_length (x ∷ xs) e = absurd (omega arith)

pub empty-contents : (b : DynamicBuffer) → IsValid b → empty b ≡ true → contents b ≡ []
unfolding empty
empty-contents b v e = nil_of_length (contents b) (ground (arith, length-contents v))

pub error_of_genuine : (ec : ErrorCode) → is_genuine ec ≡ true → is_error ec ≡ true
error_of_genuine success h = h
error_of_genuine no_buffer_space h = refl
error_of_genuine operation_not_supported h = refl
error_of_genuine would_block h = refl
error_of_genuine (other n) h = refl
