-- ===== src/Peer/Base/Packets.antt =====
-- The packets in a stream of bytes: nothing depends on how the stream arrives in parts.
use ws_streaming.Prelude.{
  ℕ, zero, suc, ◌+◌, ◌-◌, ◌≤◌, ◌<◌, ◌^◌, ◌≡◌, ◌≢◌, sym, subst, ap, ◌∙◌, List, [], ◌∷◌, ◌++◌, Bool,
  inl, take, inr, arith, length, drop, length-append, length-drop, take-append_le, drop-append_le,
  append_assoc, zero-or-pos, some, take-append_self, drop-append_self, drop-drop,
}
use ws_streaming.Wire.Streaming
use ws_streaming.Wire.Streaming.Codes
use ws_streaming.Wire.Streaming.Prefix.{decode_header-Fits, decode_header-append}
use ws_streaming.Wire.Streaming.RoundTrip.{decode-generate, length-generate}
use ws_streaming.Peer.Json.{JsonLib}
use ws_streaming.Peer.Effects.{Effect, data_received}
use ws_streaming.Peer.Base.{handle_packet, process_packet, process_packets}

module _ (lib : JsonLib) (tcp : Bool) where
  abbrev pub consumed : List ℕ → ℕ
  consumed bytes = (process_packet lib tcp bytes).0

  abbrev effects : List ℕ → List (Effect lib.Json)
  effects bytes = (process_packet lib tcp bytes).1

  -- A packet that is processed lies in the input.
  pub consumed-le : (bytes : List ℕ) → consumed bytes ≤ length bytes
  unfolding process_packet
  consumed-le bytes = ground (arith, decode_header-Fits bytes)

  -- Bytes that follow a packet do not change what it does.
  pub process_packet-append :
      (bytes more : List ℕ)
      → consumed bytes ≢ 0
      → process_packet lib tcp (bytes ++ more) ≡ process_packet lib tcp bytes
  unfolding process_packet
  process_packet-append bytes more h =
      let header = Streaming.decode_header bytes in
      let complete : header.header_size ≢ 0 = λ z. h (complete_of z) in
      let fits = decode_header-Fits bytes complete in
      let there : header.header_size ≤ length bytes = omega (arith, fits) in
      rw (
        decode_header-append bytes more complete,
        drop-append_le header.header_size bytes more there,
        take-append_le header.payload_size (drop header.header_size bytes) more
            (omega (arith, fits, length-drop header.header_size bytes)),
      )
    where
      complete_of : (Streaming.decode_header bytes).header_size ≡ 0 → consumed bytes ≡ 0
      complete_of z = ground arith

  process_packets_stop :
      (fuel : ℕ) (bytes : List ℕ)
      → consumed bytes ≡ 0
      → process_packets lib (suc fuel) tcp bytes ≡ ([], bytes)
  unfolding process_packets
  process_packets_stop fuel bytes z = ground arith

  process_packets_step :
      (fuel : ℕ) (bytes : List ℕ)
      → 0 < consumed bytes
      → let more = process_packets lib fuel tcp (drop (consumed bytes) bytes) in
        process_packets lib (suc fuel) tcp bytes ≡ (effects bytes ++ more.0, more.1)
  unfolding process_packets
  process_packets_step fuel bytes h = ground arith

  -- Any fuel above the number of bytes gives the same result.
  process_packets_fuel :
      (f g : ℕ) (bytes : List ℕ)
      → length bytes < f
      → length bytes < g
      → process_packets lib f tcp bytes ≡ process_packets lib g tcp bytes
  process_packets_fuel zero g bytes p q = absurd (omega arith)
  process_packets_fuel (suc f) zero bytes p q = absurd (omega arith)
  process_packets_fuel (suc f) (suc g) bytes p q = elim (zero-or-pos (consumed bytes)) [
    | inl z ↦ rw (process_packets_stop f bytes z, process_packets_stop g bytes z)
    | inr h ↦
        let n = consumed bytes in
        let l = length-drop n bytes in
        rw (
          process_packets_step f bytes h,
          process_packets_step g bytes h,
          process_packets_fuel f g (drop n bytes) (omega (arith, consumed-le bytes))
              (omega (arith, consumed-le bytes)),
        )
  ]

  -- All the complete packets of some bytes: what they do, and what is left.
  abbrev pub receive : List ℕ → List (Effect lib.Json) × List ℕ
  receive bytes = process_packets lib (suc (length bytes)) tcp bytes

  process_packets_split :
      (g f k : ℕ) (a b : List ℕ)
      → length a < g
      → length (a ++ b) < f
      → length (a ++ b) < k
      → let (e1, r1) = process_packets lib g tcp a in
        let (e2, r2) = process_packets lib k tcp (r1 ++ b) in
        process_packets lib f tcp (a ++ b) ≡ (e1 ++ e2, r2)
  process_packets_split zero f k a b p q r = absurd (omega arith)
  process_packets_split (suc g) zero k a b p q r = absurd (omega arith)
  process_packets_split (suc g) (suc f) k a b p q r = elim (zero-or-pos (consumed a)) [
    | inl z ↦ rw (process_packets_stop g a z) (process_packets_fuel (suc f) k (a ++ b) q r)
    | inr h ↦
        let n = consumed a in
        let same = process_packet-append a b (omega arith) in
        let le = consumed-le a in
        let sizes = length-append a b in
        let rest : List ℕ = drop n a in
        let l : length rest ≡ length a - n = length-drop n a in
        let sum : length (rest ++ b) ≡ length rest + length b = length-append rest b in
        let ih = process_packets_split g f k rest b (omega arith) (omega arith) (omega arith) in
        let h' : 0 < consumed (a ++ b) =
          omega (arith, ap (λ (t : ℕ × List (Effect lib.Json)). t.0) same) in
        rw (process_packets_step g a h) (
          process_packets_step f (a ++ b) h'
          ∙ ap
              (λ (t : ℕ × List (Effect lib.Json)).
                let rest = process_packets lib f tcp (drop t.0 (a ++ b)) in (t.1 ++ rest.0, rest.1))
              same
          ∙ rw (drop-append_le n a b le, ih) (simp append_assoc))
  ]

  -- What is left is part of the input, and holds no complete packet.
  process_packets_rest :
      (f : ℕ) (bytes : List ℕ)
      → length bytes < f
      → let rest = (process_packets lib f tcp bytes).1 in
        (length rest ≤ length bytes) × (consumed rest ≡ 0)
  process_packets_rest zero bytes p = absurd (omega arith)
  process_packets_rest (suc f) bytes p = elim (zero-or-pos (consumed bytes)) [
    | inl z ↦ rw (process_packets_stop f bytes z) (omega arith, z)
    | inr h ↦
        let n = consumed bytes in
        let l = length-drop n bytes in
        let (shorter, done) =
          process_packets_rest f (drop n bytes) (omega (arith, l, consumed-le bytes)) in
        rw (process_packets_step f bytes h) (omega (arith, shorter, l), done)
  ]

  -- What is left of a stream after its packets have been processed is no longer than the stream,
  -- and no complete packet is in front of it.
  pub receive-rest :
      (bytes : List ℕ)
      → (length (receive bytes).1 ≤ length bytes) × (consumed (receive bytes).1 ≡ 0)
  receive-rest bytes = process_packets_rest (suc (length bytes)) bytes (omega arith)

  -- However a stream of packets is cut into two parts, the same packets come out of it in the
  -- same order, and the same bytes are left.
  pub receive-append :
      (a b : List ℕ)
      → let (e1, r1) = receive a in
        let (e2, r2) = receive (r1 ++ b) in receive (a ++ b) ≡ (e1 ++ e2, r2)
  receive-append a b =
      let r1 = (receive a).1 in
      let k = suc (length (a ++ b)) in
      process_packets_split (suc (length a)) k k a b (omega arith) (omega arith) (omega arith)
      ∙ ap (λ (t : List (Effect lib.Json) × List ℕ). ((receive a).0 ++ t.0, t.1))
          (process_packets_fuel k (suc (length (r1 ++ b))) (r1 ++ b)
            (omega (arith, length-append a b, length-append r1 b, (receive-rest a).0))
            (omega arith))

-- The payload of the packet in front, by its header, and the bytes behind it.
abbrev pub payload_of : List ℕ → List ℕ
payload_of bytes =
    let header = Streaming.decode_header bytes in
    take header.payload_size (drop header.header_size bytes)

abbrev pub behind : List ℕ → List ℕ
behind bytes =
    let header = Streaming.decode_header bytes in
    drop (header.header_size + header.payload_size) bytes

-- A stream taken apart, without the loop: as long as there is a complete packet in front, what it
-- does and then the bytes behind it; the bytes without one are left.
pub data TakenApart (lib : JsonLib) (tcp : Bool)
    : List ℕ → List (Effect lib.Json) → List ℕ → Type 0 where
  none_complete :
      (bytes : List ℕ)
      → (Streaming.decode_header bytes).header_size ≡ 0
      → TakenApart lib tcp bytes [] bytes
  first_packet :
      (bytes rest : List ℕ) (more : List (Effect lib.Json))
      → (Streaming.decode_header bytes).header_size ≢ 0
      → TakenApart lib tcp (behind bytes) more rest
      → TakenApart lib tcp bytes
          (handle_packet lib tcp (Streaming.decode_header bytes) (payload_of bytes) ++ more)
          rest

module _ (lib : JsonLib) (tcp : Bool) where
  complete_consumed :
      (bytes : List ℕ)
      → 0 < (Streaming.decode_header bytes).header_size
      → process_packet lib tcp bytes ≡ (
        (Streaming.decode_header bytes).header_size + (Streaming.decode_header bytes).payload_size,
        handle_packet lib tcp (Streaming.decode_header bytes) (payload_of bytes),
      )
  unfolding process_packet
  complete_consumed bytes h = ground arith

  incomplete_consumed :
      (bytes : List ℕ)
      → (Streaming.decode_header bytes).header_size ≡ 0
      → consumed lib tcp bytes ≡ 0
  unfolding process_packet
  incomplete_consumed bytes z = ground arith

  process_packets-TakenApart :
      (f : ℕ) (bytes : List ℕ)
      → length bytes < f
      → TakenApart lib tcp bytes
          (process_packets lib f tcp bytes).0
          (process_packets lib f tcp bytes).1
  process_packets-TakenApart zero bytes p = absurd (omega arith)
  process_packets-TakenApart (suc f) bytes p =
      elim (zero-or-pos (Streaming.decode_header bytes).header_size) [
        | inl z ↦
            rw (process_packets_stop lib tcp f bytes (incomplete_consumed bytes z))
              (none_complete bytes z)
        | inr h ↦
            let one = complete_consumed bytes h in
            let size = ap (λ (t : ℕ × List (Effect lib.Json)). t.0) one in
            rw (process_packets_step lib tcp f bytes (omega (arith, size))) (
              subst
                (λ (t : ℕ × List (Effect lib.Json)).
                  let more = process_packets lib f tcp (drop t.0 bytes) in
                  TakenApart lib tcp bytes (t.1 ++ more.0) more.1)
                (sym one)
                (first_packet bytes (process_packets lib f tcp (behind bytes)).1
                  (process_packets lib f tcp (behind bytes)).0 (λ z. omega (arith, z))
                  (process_packets-TakenApart f (behind bytes) (
                    omega (
                      arith,
                      size,
                      consumed-le lib tcp bytes,
                      length-drop
                          ((Streaming.decode_header bytes).header_size
                            + (Streaming.decode_header bytes).payload_size)
                          bytes,
                    )))))
      ]

  -- The loop over the packets takes the stream apart.
  pub receive-TakenApart :
      (bytes : List ℕ)
      → TakenApart lib tcp bytes (receive lib tcp bytes).0 (receive lib tcp bytes).1
  receive-TakenApart bytes = process_packets-TakenApart (suc (length bytes)) bytes (omega arith)

-- A data packet as `send_packet` frames it, with its signal number and its bytes.
pub record IsData (signo : ℕ) (payload : List ℕ) : Type 0 where
  pub signo_fits : signo < 2 ^ 20
  pub some_bytes : 0 < length payload
  pub size_fits : length payload < 2 ^ 31

module _ (lib : JsonLib) (tcp : Bool) where
  process_packet-data :
      (signo : ℕ) (payload rest header : List ℕ)
      → IsData signo payload
      → Streaming.generate_header signo Codes.data_packet (length payload) ≡ some header
      → process_packet lib tcp (header ++ (payload ++ rest))
        ≡ (length header + length payload, data_received signo payload ∷ [])
  unfolding process_packet
  process_packet-data signo payload rest header d e =
      let n = length payload in
      rw
        (
          decode-generate signo Codes.data_packet d.signo_fits (omega arith) n header
              (payload ++ rest) d.some_bytes d.size_fits (omega (arith, length-append payload rest))
              e,
          drop-append_self header (payload ++ rest),
          take-append_self payload rest,
        )
        (ground (arith, length-generate signo Codes.data_packet n header e))

  -- A data packet whose signal number is below 2^20 and which has at least 1 and fewer than 2^31
  -- bytes, at the front of a stream, is handed over whole under its signal number, and what
  -- follows it is processed as it would be alone.
  pub receive-data :
      (signo : ℕ) (payload rest header : List ℕ)
      → IsData signo payload
      → Streaming.generate_header signo Codes.data_packet (length payload) ≡ some header
      → receive lib tcp (header ++ (payload ++ rest))
        ≡ (data_received signo payload ∷ (receive lib tcp rest).0, (receive lib tcp rest).1)
  receive-data signo payload rest header d e =
      let all = header ++ (payload ++ rest) in
      let one = process_packet-data signo payload rest header d e in
      let size = ap (λ (t : ℕ × List (Effect lib.Json)). t.0) one in
      let k = length all in
      let sizes : k ≡ length header + (length payload + length rest) =
        omega (arith, length-append header (payload ++ rest), length-append payload rest) in
      process_packets_step lib tcp k all (omega (arith, size, d.some_bytes))
      ∙ ap
          (λ (t : ℕ × List (Effect lib.Json)).
            let more = process_packets lib k tcp (drop t.0 all) in (t.1 ++ more.0, more.1))
          one
      ∙ ap
          (λ (t : List ℕ).
            let more = process_packets lib k tcp t in
            (data_received signo payload ∷ more.0, more.1))
          (sym (drop-drop (length payload) (length header) all)
            ∙ ap (drop (length payload)) (drop-append_self header (payload ++ rest))
            ∙ drop-append_self payload rest)
      ∙ ap (λ (t : List (Effect lib.Json) × List ℕ). (data_received signo payload ∷ t.0, t.1))
          (process_packets_fuel lib tcp k (suc (length rest)) rest
            (omega (arith, sizes, d.some_bytes)) (omega arith))
