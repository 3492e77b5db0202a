-- ===== src/Signals/LocalContainer/Numbers.antt =====
-- The numbers of the signals.
use ws_streaming.Prelude.{
  ℕ, ◌+◌, ◌%◌, ◌^◌, ◌≤◌, ◌<◌, ◌≡◌, ◌≢◌, List, [], ◌∷◌, none, some, arith, Option-cases, inl, inr,
  refl,
}
use ws_streaming.Signals.LocalContainer.{
  LocalSignal, RegisteredLocalSignal, Container, find_address, find_signo, emplace, erase_signo,
  add_local_signal, remove_local_signal, find_local_signal, registered_local_signal,
}

-- Every number is above `low` and below `high`, and they ascend.
abbrev pub Ascending : ℕ → ℕ → List RegisteredLocalSignal → Type 0
Ascending low high [] = Unit {0}
Ascending low high (e ∷ es) = (low < e.signo) × (e.signo < high) × Ascending e.signo high es

-- No entry is of the signal at the address.
abbrev pub IsAbsent : ℕ → List RegisteredLocalSignal → Type 0
IsAbsent a [] = Unit {0}
IsAbsent a (e ∷ es) = (e.signal.address ≢ a) × IsAbsent a es

-- No signal has two entries.
abbrev pub Distinct : List RegisteredLocalSignal → Type 0
Distinct [] = Unit {0}
Distinct (e ∷ es) = IsAbsent e.signal.address es × Distinct es

-- Numbers start at 1, are given once, and the next one is free.
pub record IsValid (c : Container) : Type 0 where
  pub ascending : Ascending 0 c.next_signo c.signals
  pub distinct : Distinct c.signals
  pub some_signo : 0 < c.next_signo

find_address-none :
    (a : ℕ) (es : List RegisteredLocalSignal) → find_address a es ≡ none → IsAbsent a es
unfolding find_address
find_address-none a [] h = tt
find_address-none a (e ∷ es) h = ground (arith, find_address-none a es)

Ascending-raise :
    (low high : ℕ) (es : List RegisteredLocalSignal)
    → Ascending low high es
    → Ascending low (high + 1) es
Ascending-raise low high [] h = tt
Ascending-raise low high (e ∷ es) h = ground (arith, Ascending-raise e.signo high es)

IsAbsent-emplace :
    (a : ℕ) (new : RegisteredLocalSignal) (es : List RegisteredLocalSignal)
    → new.signal.address ≢ a
    → IsAbsent a es
    → IsAbsent a (emplace new es).0
unfolding emplace
IsAbsent-emplace a new [] d h = ground arith
IsAbsent-emplace a new (e ∷ es) d h = ground (arith, IsAbsent-emplace a new es)

-- A number that is above all the others goes to the end.
emplace_lem :
    (low : ℕ) (new : RegisteredLocalSignal) (es : List RegisteredLocalSignal)
    → low < new.signo
    → Ascending low new.signo es
    → IsAbsent new.signal.address es
    → Distinct es
    → Ascending low (new.signo + 1) (emplace new es).0
      × Distinct (emplace new es).0
      × ((emplace new es).1 ≡ new)
      × (find_signo new.signo (emplace new es).0 ≡ some new)
unfolding emplace find_signo
emplace_lem low new [] p h a d = ground arith
emplace_lem low new (e ∷ es) p h a d =
    ground (arith, emplace_lem e.signo new es, IsAbsent-emplace e.signal.address new es)

above :
    (low high n : ℕ) (es : List RegisteredLocalSignal)
    → Ascending low high es
    → n ≤ low
    → find_signo n es ≡ none
unfolding find_signo
above low high n [] h p = refl
above low high n (e ∷ es) h p = ground (arith, above e.signo high n es)

find_address-find_signo :
    (low high a : ℕ) (es : List RegisteredLocalSignal) (e : RegisteredLocalSignal)
    → Ascending low high es
    → find_address a es ≡ some e
    → (find_signo e.signo es ≡ some e) × (e.signal.address ≡ a) × (low < e.signo)
unfolding find_address find_signo
find_address-find_signo low high a [] e h f = absurd cc
find_address-find_signo low high a (x ∷ es) e h f =
    ground (arith, find_address-find_signo x.signo high a es e)

Ascending-lower :
    (low low' high : ℕ) (es : List RegisteredLocalSignal)
    → low' ≤ low
    → Ascending low high es
    → Ascending low' high es
Ascending-lower low low' high [] p h = tt
Ascending-lower low low' high (e ∷ es) p h = (omega (arith, h.0), h.1, h.2)

IsAbsent-erase :
    (a n : ℕ) (es : List RegisteredLocalSignal) → IsAbsent a es → IsAbsent a (erase_signo n es)
unfolding erase_signo
IsAbsent-erase a n [] h = h
IsAbsent-erase a n (e ∷ es) h = ground (arith, IsAbsent-erase a n es)

erase_lem :
    (low high n : ℕ) (es : List RegisteredLocalSignal)
    → Ascending low high es
    → Distinct es
    → Ascending low high (erase_signo n es) × Distinct (erase_signo n es)
unfolding erase_signo
erase_lem low high n [] h d = (h, d)
erase_lem low high n (e ∷ es) h d = ground (
  arith,
  erase_lem e.signo high n es,
  IsAbsent-erase e.signal.address n es,
  Ascending-lower e.signo low high es,
)

-- The entry of a signal is its only one: without it the signal is gone.
erase-IsAbsent :
    (low high a : ℕ) (es : List RegisteredLocalSignal) (e : RegisteredLocalSignal)
    → Ascending low high es
    → Distinct es
    → find_address a es ≡ some e
    → IsAbsent a (erase_signo e.signo es)
unfolding find_address erase_signo
erase-IsAbsent low high a [] e h d f = absurd cc
erase-IsAbsent low high a (x ∷ es) e h d f =
    ground (arith, erase-IsAbsent x.signo high a es e, find_address-find_signo x.signo high a es e)

-- Adding a signal to a valid container whose numbers are not used up leaves it valid, and the
-- returned entry is of that signal and is found by its number, which is not 0.
pub add_local_signal-IsValid :
    (c : Container) (signal : LocalSignal)
    → IsValid c
    → c.next_signo + 1 < 2 ^ 32
    → let (c', e, added) = add_local_signal c signal in
      IsValid c'
      × (e.signal.address ≡ signal.address)
      × (find_local_signal c' e.signo ≡ some e)
      × (0 < e.signo)
unfolding add_local_signal find_local_signal
add_local_signal-IsValid c signal v h =
    elim (Option-cases (find_address signal.address c.signals)) [
      | inl f ↦
          let new = registered_local_signal signal c.next_signo in
          let (up, apart, same, found) =
            emplace_lem 0 new c.signals v.some_signo v.ascending
              (find_address-none signal.address c.signals f) v.distinct in
          let small : (c.next_signo + 1) % 2 ^ 32 ≡ c.next_signo + 1 = omega arith in
          rw (f, add_local_signal, small, same)
            (
              record { ascending = up; distinct = apart; some_signo = omega arith },
              refl,
              found,
              v.some_signo,
            )
      | inr (e, f) ↦
          let (found, same, pos) =
            find_address-find_signo 0 c.next_signo signal.address c.signals e v.ascending f in
          rw (f, add_local_signal) (v, same, found, pos)
    ]

-- Removing a signal from a valid container leaves it valid and without the signal.
pub remove_local_signal-IsValid :
    (c : Container) (signal : LocalSignal)
    → IsValid c
    → let (c', n) = remove_local_signal c signal in IsValid c' × IsAbsent signal.address c'.signals
unfolding remove_local_signal
remove_local_signal-IsValid c signal v =
    elim (Option-cases (find_address signal.address c.signals)) [
      | inl f ↦ rw (f, remove_local_signal) (v, find_address-none signal.address c.signals f)
      | inr (e, f) ↦
          let (up, apart) = erase_lem 0 c.next_signo e.signo c.signals v.ascending v.distinct in
          rw (f, remove_local_signal)
            (
              record { ascending = up; distinct = apart; some_signo = v.some_signo },
              erase-IsAbsent 0 c.next_signo signal.address c.signals e v.ascending v.distinct f,
            )
    ]
