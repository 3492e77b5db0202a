-- ===== src/Peer/Base/Frames.antt =====
-- The WebSocket frames in a stream of bytes, and their masks.
use ws_streaming.Prelude.{
  ℕ, zero, suc, ◌+◌, ◌%◌, ◌≤◌, ◌<◌, ◌≡◌, refl, ap, ◌∙◌, List, [], ◌∷◌, ◌++◌, Bool, true, false, inl,
  inr, arith, length, take, drop, length-append, length-drop, take-append_le, drop-append_le,
  append_assoc, zero-or-pos, ◌==◌, Bool-cases, get_or, if◌then◌else◌,
}
use ws_streaming.Prelude.Bits.{bit_xor_twice}
use ws_streaming.Wire.WebSocket
use ws_streaming.Wire.WebSocket.Prefix.{decode_header-Fits_frame, decode_header-append_frame}
use ws_streaming.Peer.Json.{JsonLib}
use ws_streaming.Peer.Effects.{Effect, ErrorCode, is_error, success}
use ws_streaming.Peer.Base.{process_websocket_frame, process_frames, unmask}

-- Applying a masking key twice, from the same index, gives the payload back.
pub unmask-unmask :
    (key : List ℕ) (i : ℕ) (payload : List ℕ) → unmask key i (unmask key i payload) ≡ payload
unfolding unmask
unmask-unmask key i [] = refl
unmask-unmask key i (x ∷ xs) =
    rw (bit_xor_twice x (get_or key (i % 4) 0)) (ap (λ t. x ∷ t) (unmask-unmask key (i + 1) xs))

module _ (lib : JsonLib) (tcp : Bool) where
  abbrev Out : Type 0
  Out = List (Effect lib.Json) × ErrorCode × List ℕ

  -- The frame at the front of the bytes: its size, and what processing it does.
  abbrev frame_size : List ℕ → ℕ
  frame_size bytes =
      (WebSocket.decode_header bytes).header_size + (WebSocket.decode_header bytes).payload_size

  abbrev frame : List ℕ → List (Effect lib.Json) × ErrorCode
  frame bytes =
      let header = WebSocket.decode_header bytes in
      process_websocket_frame lib tcp header
        (take header.payload_size (drop header.header_size bytes))

  abbrev IsComplete : List ℕ → Type 0
  IsComplete bytes = 0 < (WebSocket.decode_header bytes).header_size

  frame-append :
      (bytes more : List ℕ)
      → IsComplete bytes
      → (IsComplete (bytes ++ more))
        × (frame_size (bytes ++ more) ≡ frame_size bytes)
        × (frame (bytes ++ more) ≡ frame bytes)
  frame-append bytes more h =
      let header = WebSocket.decode_header bytes in
      let same = decode_header-append_frame bytes more (λ z. absurd (omega arith)) in
      let fits = decode_header-Fits_frame bytes (λ z. absurd (omega arith)) in
      (
        rw same h,
        rw same,
        rw (
          same,
          drop-append_le header.header_size bytes more (omega (arith, fits)),
          take-append_le header.payload_size (drop header.header_size bytes) more
              (omega (arith, fits, length-drop header.header_size bytes)),
        ),
      )

  frames_stop :
      (fuel : ℕ) (bytes : List ℕ)
      → (WebSocket.decode_header bytes).header_size ≡ 0
      → process_frames lib (suc fuel) tcp bytes ≡ ([], success, bytes)
  unfolding process_frames
  frames_stop fuel bytes z = ground arith

  frames_fail :
      (fuel : ℕ) (bytes : List ℕ)
      → IsComplete bytes
      → is_error (frame bytes).1 ≡ true
      → process_frames lib (suc fuel) tcp bytes ≡ ((frame bytes).0, (frame bytes).1, bytes)
  unfolding process_frames
  frames_fail fuel bytes h e =
      let more : ((WebSocket.decode_header bytes).header_size == 0) ≡ false = ground arith in
      rw (more, e)

  frames_step :
      (fuel : ℕ) (bytes : List ℕ)
      → IsComplete bytes
      → is_error (frame bytes).1 ≡ false
      → let (more, ec, rest) = process_frames lib fuel tcp (drop (frame_size bytes) bytes) in
        process_frames lib (suc fuel) tcp bytes ≡ ((frame bytes).0 ++ more, ec, rest)
  unfolding process_frames
  frames_step fuel bytes h e =
      let more : ((WebSocket.decode_header bytes).header_size == 0) ≡ false = ground arith in
      rw (more, e)

  frame_size-le :
      (bytes : List ℕ)
      → IsComplete bytes
      → (0 < frame_size bytes) × (frame_size bytes ≤ length bytes)
  frame_size-le bytes h = omega (arith, decode_header-Fits_frame bytes (λ z. absurd (omega arith)))

  frames_fuel :
      (f g : ℕ) (bytes : List ℕ)
      → length bytes < f
      → length bytes < g
      → process_frames lib f tcp bytes ≡ process_frames lib g tcp bytes
  frames_fuel zero g bytes p q = absurd (omega arith)
  frames_fuel (suc f) zero bytes p q = absurd (omega arith)
  frames_fuel (suc f) (suc g) bytes p q =
      elim (zero-or-pos (WebSocket.decode_header bytes).header_size) [
        | inl z ↦ rw (frames_stop f bytes z, frames_stop g bytes z)
        | inr h ↦ elim (Bool-cases (is_error (frame bytes).1)) [
          | inl e ↦ rw (frames_fail f bytes h e, frames_fail g bytes h e)
          | inr e ↦
              let n = frame_size bytes in
              let (pos, le) = frame_size-le bytes h in
              let l = length-drop n bytes in
              rw (
                frames_step f bytes h e,
                frames_step g bytes h e,
                frames_fuel f g (drop n bytes) (omega (arith, l)) (omega (arith, l)),
              )
        ]
      ]

  -- All the complete frames of some bytes, up to one that is refused.
  abbrev pub receive_frames : List ℕ → Out
  receive_frames bytes = process_frames lib (suc (length bytes)) tcp bytes

  -- Going on with more bytes after a first part: not after an error.
  abbrev pub resume : Out → List ℕ → (List ℕ → Out) → Out
  resume out more next =
      if is_error out.1
      then (out.0, out.1, out.2 ++ more)
      else (out.0 ++ (next (out.2 ++ more)).0, (next (out.2 ++ more)).1, (next (out.2 ++ more)).2)

  abbrev before : List (Effect lib.Json) → Out → Out
  before first out = (first ++ out.0, out.1, out.2)

  after :
      (first : List (Effect lib.Json)) (out out' : Out)
      → out ≡ out'
      → before first out ≡ before first out'
  after first out out' e = ap (before first) e

  after-resume :
      (first : List (Effect lib.Json)) (out : Out) (more : List ℕ) (next : List ℕ → Out)
      → before first (resume out more next) ≡ resume (before first out) more next
  after-resume first out more next = elim (Bool-cases (is_error out.1)) [
    | inl e ↦ rw e
    | inr e ↦ rw e (simp append_assoc)
  ]

  frames_split :
      (g f k : ℕ) (a b : List ℕ)
      → length a < g
      → length (a ++ b) < f
      → length (a ++ b) < k
      → process_frames lib f tcp (a ++ b)
        ≡ resume (process_frames lib g tcp a) b (process_frames lib k tcp)
  frames_split zero f k a b p q r = absurd (omega arith)
  frames_split (suc g) zero k a b p q r = absurd (omega arith)
  frames_split (suc g) (suc f) k a b p q r =
      elim (zero-or-pos (WebSocket.decode_header a).header_size) [
        | inl z ↦ rw (frames_stop g a z) (frames_fuel (suc f) k (a ++ b) q r)
        | inr h ↦
            let (h', size, same) = frame-append a b h in
            elim (Bool-cases (is_error (frame a).1)) [
              | inl e ↦ rw (frames_fail g a h e, frames_fail f (a ++ b) h' (rw same e), same, e)
              | inr e ↦
                  let n = frame_size a in
                  let (pos, le) = frame_size-le a h in
                  let l = length-drop n a in
                  let sizes = length-append a b in
                  let sum = length-append (drop n a) b in
                  rw (frames_step g a h e) (
                    frames_step f (a ++ b) h' (rw same e)
                    ∙ rw (size, same, drop-append_le n a b le)
                        (after (frame a).0 (process_frames lib f tcp (drop n a ++ b)) _ (
                          frames_split g f k (drop n a) b (omega (arith, l)) (omega (arith, l))
                            (omega (arith, l))))
                    ∙ after-resume (frame a).0 (process_frames lib g tcp (drop n a)) b
                        (process_frames lib k tcp))
            ]
      ]

  frames_rest :
      (f : ℕ) (bytes : List ℕ)
      → length bytes < f
      → length (process_frames lib f tcp bytes).2 ≤ length bytes
  frames_rest zero bytes p = absurd (omega arith)
  frames_rest (suc f) bytes p = elim (zero-or-pos (WebSocket.decode_header bytes).header_size) [
    | inl z ↦ rw (frames_stop f bytes z) (omega arith)
    | inr h ↦ elim (Bool-cases (is_error (frame bytes).1)) [
      | inl e ↦ rw (frames_fail f bytes h e) (omega arith)
      | inr e ↦
          let n = frame_size bytes in
          let l = length-drop n bytes in
          let (pos, le) = frame_size-le bytes h in
          rw (frames_step f bytes h e)
            (omega (arith, l, frames_rest f (drop n bytes) (omega (arith, l))))
    ]
  ]

  -- However a stream of WebSocket frames is cut into two parts, the same frames come out of it up
  -- to the same error, and the same bytes are left; after an error nothing more is taken.
  pub receive_frames-append :
      (a b : List ℕ) → receive_frames (a ++ b) ≡ resume (receive_frames a) b receive_frames
  receive_frames-append a b =
      let k = suc (length (a ++ b)) in
      let r = (receive_frames a).2 in
      let shorter = frames_rest (suc (length a)) a (omega arith) in
      let same : process_frames lib k tcp (r ++ b) ≡ receive_frames (r ++ b) =
        frames_fuel k (suc (length (r ++ b))) (r ++ b)
          (omega (arith, length-append a b, length-append r b)) (omega arith) in
      frames_split (suc (length a)) k k a b (omega arith) (omega arith) (omega arith)
      ∙ ap
          (λ (t : Out).
            if is_error (receive_frames a).1
            then ((receive_frames a).0, (receive_frames a).1, r ++ b)
            else ((receive_frames a).0 ++ t.0, t.1, t.2))
          same
