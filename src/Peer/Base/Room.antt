-- ===== src/Peer/Base/Room.antt =====
-- The receive buffer always has room for the next read.
use ws_streaming.Prelude.{
  ℕ, zero, suc, ◌+◌, ◌≤◌, ◌<◌, ◌≡◌, List, [], ◌∷◌, ◌++◌, Bool, true, false, ◌⊎◌, inl, inr, arith,
  length, sym, subst, ap, ◌∙◌,
}
use ws_streaming.Peer.Json.{JsonLib}
use ws_streaming.Peer.Effects.{Effect, close, read, no_buffer_space}
use ws_streaming.Peer.Base.{
  BasePeer, base_peer, grow_rx_buffer, finish_buffer, process_buffer_tcp, make_room, run_with,
  post_process_buffer, post_close,
}
use ws_streaming.Peer.Base.Packets.{receive, receive-rest, TakenApart, receive-TakenApart}

-- The occupied part lies in the buffer, which is not empty and no larger than its limit.
pub record IsValid (p : BasePeer) : Type 0 where
  pub inside : length p.rx_bytes ≤ p.rx_size
  pub limited : p.rx_size ≤ p.rx_max
  pub some_room : 0 < p.rx_size

pub base_peer-IsValid : (tcp : Bool) (size : ℕ) → 0 < size → IsValid (base_peer tcp size)
unfolding base_peer
base_peer-IsValid tcp size h = omega arith

-- What a read needs: the part of the buffer that it fills is not empty.
abbrev pub HasSpace : BasePeer → Type 0
HasSpace p = length p.rx_bytes < p.rx_size

-- After growth the space is larger, up to the limit; at the limit the call says so.
pub grow_rx_buffer-IsValid :
    (p : BasePeer)
    → IsValid p
    → let (p', grown) = grow_rx_buffer p in
      IsValid p'
      × (p'.rx_bytes ≡ p.rx_bytes)
      × (grown ≡ true → p.rx_size < p'.rx_size)
      × (grown ≡ false → (p' ≡ p) × (p.rx_size ≡ p.rx_max))
unfolding grow_rx_buffer
grow_rx_buffer-IsValid p v = ground arith

-- The buffer is given to the next read with space in it, or the connection is closed because a
-- full buffer has reached its limit.
pub finish_buffer-HasSpace :
    (lib : JsonLib) (p : BasePeer)
    → IsValid p
    → let (p', effects) = finish_buffer lib p in
      IsValid p'
      × ((effects ≡ read ∷ []) × HasSpace p'
          ⊎ (effects ≡ close no_buffer_space ∷ []) × (length p.rx_bytes ≡ p.rx_max))
unfolding finish_buffer grow_rx_buffer
finish_buffer-HasSpace lib p v = ground arith

finish_buffer-rx_bytes :
    (lib : JsonLib) (p : BasePeer) → (finish_buffer lib p).0.rx_bytes ≡ p.rx_bytes
unfolding finish_buffer grow_rx_buffer
finish_buffer-rx_bytes lib p = ground arith

make_room_lem :
    (fuel size : ℕ) (p : BasePeer)
    → IsValid p
    → p.rx_max < fuel + p.rx_size
    → let p' = make_room fuel size p in
      IsValid p'
      × (p'.rx_bytes ≡ p.rx_bytes)
      × (p'.rx_max ≡ p.rx_max)
      × ((size ≤ p'.rx_size) ⊎ (p'.rx_size ≡ p.rx_max))
unfolding make_room grow_rx_buffer
make_room_lem zero size p v h = absurd (omega arith)
make_room_lem (suc fuel) size p v h = ground (arith, make_room_lem fuel size (grow_rx_buffer p).0)

run_with_cases :
    (p : BasePeer) (bytes : List ℕ)
    → IsValid p
    → let (p', posted) = run_with p bytes in
      IsValid p'
      × (length bytes ≤ p.rx_max → (p'.rx_bytes ≡ bytes) × (posted ≡ post_process_buffer))
      × (p.rx_max < length bytes → posted ≡ post_close no_buffer_space)
unfolding run_with
run_with_cases p bytes v = ground (arith, make_room_lem (suc p.rx_max) (length bytes) p v)

-- Bytes that come with a connection and fit the limit are stored in a valid receive buffer and
-- processed.
pub run_with-fits :
    (p : BasePeer) (bytes : List ℕ)
    → IsValid p
    → length bytes ≤ p.rx_max
    → let (p', posted) = run_with p bytes in
      IsValid p' × (p'.rx_bytes ≡ bytes) × (posted ≡ post_process_buffer)
run_with-fits p bytes v h =
    let (valid, fits, _) = run_with_cases p bytes v in
    let (same, posted) = fits h in (valid, same, posted)

-- Bytes that come with a connection and exceed the limit close it.
pub run_with-exceeds :
    (p : BasePeer) (bytes : List ℕ)
    → IsValid p
    → p.rx_max < length bytes
    → (run_with p bytes).1 ≡ post_close no_buffer_space
run_with-exceeds p bytes v h = let (_, _, refused) = run_with_cases p bytes v in refused h

-- One pass over a valid receive buffer of the TCP protocol has the effects of its complete
-- packets, one after the other from the front, taken apart by their headers; it leaves in front,
-- in a valid buffer, the bytes that hold no complete packet, and starts a read with space to
-- fill, or closes the connection where these bytes fill the buffer at its limit.
pub process_buffer_tcp_lem :
    (lib : JsonLib) (p : BasePeer)
    → IsValid p
    → let (p', all) = process_buffer_tcp lib p in
      IsValid p'
      × ((effects : List (Effect lib.Json)) × TakenApart lib p.use_tcp_protocol p.rx_bytes effects
            p'.rx_bytes
          × ((all ≡ effects ++ (read ∷ [])) × HasSpace p'
              ⊎ (all ≡ effects ++ (close no_buffer_space ∷ [])) × (length p'.rx_bytes ≡ p.rx_max)))
unfolding process_buffer_tcp
process_buffer_tcp_lem lib p v =
    let (effects, rest) = receive lib p.use_tcp_protocol p.rx_bytes in
    let q : BasePeer = record p { rx_bytes = rest } in
    let shorter = (receive-rest lib p.use_tcp_protocol p.rx_bytes).0 in
    let (valid, last) = finish_buffer-HasSpace lib q (record {
      inside = omega (arith, shorter, v.inside);
      limited = v.limited;
      some_room = v.some_room;
    }) in
    let same = finish_buffer-rx_bytes lib q in
    (
      valid,
      (
        effects,
        subst (TakenApart lib p.use_tcp_protocol p.rx_bytes effects) (sym same)
            (receive-TakenApart lib p.use_tcp_protocol p.rx_bytes),
        elim last [
          | inl (e, space) ↦ inl (ap (λ (x : List (Effect lib.Json)). effects ++ x) e, space)
          | inr (e, full) ↦
              inr (ap (λ (x : List (Effect lib.Json)). effects ++ x) e, ap length same ∙ full)
        ],
      ),
    )
