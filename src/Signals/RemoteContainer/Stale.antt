-- ===== src/Signals/RemoteContainer/Stale.antt =====
-- A signal that is given a second number.
use Prim.Native.String.{String}
use ws_streaming.Prelude.{ℕ, ◌≡◌, ◌≢◌, List, [], ◌∷◌, some, ◌==◌, if◌then◌else◌, arith}
use ws_streaming.Signals.RemoteContainer.{
  Entry, Container, find_id, erase_id, find_signo, erase_signo, assign_signo, find_remote_signal,
  remove_remote_signal, set_remote_signal_signo,
}

-- No entry stands at the address.
abbrev pub IsFree : ℕ → List Entry → Type 0
IsFree a [] = Unit {0}
IsFree a (e ∷ es) = (e.address ≢ a) × IsFree a es

abbrev renamed : ℕ → ℕ → Entry → Entry
renamed a n e = if e.address == a then record e { signo = n } else e

find_id-assign :
    (id : String) (a n : ℕ) (es : List Entry) (e : Entry)
    → find_id id es ≡ some e
    → find_id id (assign_signo a n es) ≡ some (renamed a n e)
unfolding find_id assign_signo
find_id-assign id a n [] e f = absurd cc
find_id-assign id a n (x ∷ es) e f = ground (arith, find_id-assign id a n es e)

IsFree-assign : (a n b : ℕ) (es : List Entry) → IsFree b es → IsFree b (assign_signo a n es)
unfolding assign_signo
IsFree-assign a n b [] h = h
IsFree-assign a n b (x ∷ es) h = ground (arith, IsFree-assign a n b es)

IsFree-erase-assign :
    (id : String) (a n b : ℕ) (es : List Entry)
    → IsFree b (erase_id id es)
    → IsFree b (erase_id id (assign_signo a n es))
unfolding erase_id assign_signo
IsFree-erase-assign id a n b [] h = h
IsFree-erase-assign id a n b (x ∷ es) h =
    ground (arith, IsFree-assign a n b es, IsFree-erase-assign id a n b es)

left :
    (a m n : ℕ) (e : Entry) (links : List (ℕ × ℕ))
    → m ≢ n
    → find_signo m (
        erase_signo
          (renamed e.address n (renamed e.address m e)).signo
          ((n, e.address) ∷ erase_signo n ((m, e.address) ∷ erase_signo m links)))
      ≡ some e.address
unfolding find_signo erase_signo
left a m n e links d = ground arith

-- When a signal is given two numbers one after the other and is then removed, the first number is
-- still found and points to no entry of the container.
pub remove-set-set_stale :
    (c : Container) (id : String) (e : Entry) (m n : ℕ)
    → find_id id c.by_id ≡ some e
    → IsFree e.address (erase_id id c.by_id)
    → m ≢ n
    → let c' =
        (remove_remote_signal
          (set_remote_signal_signo (set_remote_signal_signo c e.address m) e.address n)
          id).0 in
      (find_remote_signal c' m ≡ some e.address) × IsFree e.address c'.by_id
unfolding remove_remote_signal set_remote_signal_signo find_remote_signal
remove-set-set_stale c id e m n f h d =
    let a = e.address in
    let once = assign_signo a m c.by_id in
    let e1 = find_id-assign id a m c.by_id e f in
    let e2 = find_id-assign id a n once (renamed a m e) e1 in
    let free = IsFree-erase-assign id a n a once (IsFree-erase-assign id a m a c.by_id h) in
    rw (e2, remove_remote_signal) (left a m n e c.by_signo d, free)
