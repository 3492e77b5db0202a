-- ===== src/Examples/Buffers.antt =====
-- The transmit buffer, with blocks of 4 bytes and a limit of 3 of them.
use ws_streaming.Prelude.{ℕ, ◌-◌, ◌≡◌, ◌≤◌, refl, List, [], ◌∷◌, ◌++◌, arith, take, drop, min}
use ws_streaming.Buffer
use ws_streaming.Buffer.{DynamicBuffer, dynamic_buffer, max_buffers}
use ws_streaming.Buffer.Memory.{flat}
use ws_streaming.Buffer.Invariant.{IsValid, contents, capacity, end_at, dynamic_buffer-IsValid}
use ws_streaming.Buffer.Write.{write-contents}
use ws_streaming.Buffer.Consume.{consume-contents}
use ws_streaming.Buffer.Gather.{buffers-whole}
use ws_streaming.Examples.Libraries.{copier}

abbrev fresh : DynamicBuffer
fresh = dynamic_buffer 12 4

fresh-IsValid : IsValid fresh
fresh-IsValid = (dynamic_buffer-IsValid 12 4).0

abbrev bytes : List ℕ
bytes = 1 ∷ 2 ∷ 3 ∷ 4 ∷ 5 ∷ 6 ∷ []

abbrev filled : DynamicBuffer
filled = (Buffer.write copier fresh bytes).0

write-contents_example :
    let (b', n) = Buffer.write copier fresh bytes in
    IsValid b'
    × (contents b' ≡ contents fresh ++ take n bytes)
    × (n ≡ min 6 (capacity fresh - end_at fresh.block_size fresh.used fresh.write_offset))
write-contents_example = write-contents copier fresh bytes fresh-IsValid

filled-IsValid : IsValid filled
filled-IsValid = (write-contents copier fresh bytes fresh-IsValid).0

consume-contents_example :
    IsValid (Buffer.consume filled 5)
    × (contents (Buffer.consume filled 5) ≡ drop 5 (contents filled))
consume-contents_example = consume-contents filled 5 filled-IsValid

filled_used : filled.used ≤ max_buffers
unfolding Buffer.write dynamic_buffer
filled_used = omega arith

buffers-whole_example : flat (Buffer.buffers filled) ≡ contents filled
buffers-whole_example = buffers-whole filled filled-IsValid filled_used

-- What is held at the end of the run.
left : contents (Buffer.consume filled 5) ≡ 6 ∷ []
unfolding Buffer.write Buffer.consume dynamic_buffer
left = refl
