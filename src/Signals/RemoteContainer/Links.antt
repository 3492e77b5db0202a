-- ===== src/Signals/RemoteContainer/Links.antt =====
-- Which pointers of the map of numbers are good.
use Prim.Native.String.{String}
use ws_streaming.Prelude.{
  ℕ, ◌≡◌, ◌≢◌, ◌⊎◌, inl, inr, List, [], ◌∷◌, ◌++◌, Bool, some, arith, Option-cases,
}
use ws_streaming.Signals.RemoteContainer.{
  Entry, Container, find_id, erase_id, find_signo, erase_signo, assign_signo, add_remote_signal,
  find_remote_signal, remove_remote_signal, forget_remote_signo, set_remote_signal_signo,
  clear_remote_signals,
}

-- Some entry stands at the address, and has the number.
abbrev pub Has : ℕ → ℕ → List Entry → Type 0
Has a n [] = ⊥
Has a n (e ∷ es) = ((e.address ≡ a) × (e.signo ≡ n)) ⊎ Has a n es

-- Every number points to an entry that has it.
abbrev pub Linked : List Entry → List (ℕ × ℕ) → Type 0
Linked es [] = Unit {0}
Linked es ((n, a) ∷ links) = Has a n es × Linked es links

-- No number but `n` points to the address.
abbrev pub Only : ℕ → ℕ → List (ℕ × ℕ) → Type 0
Only a n [] = Unit {0}
Only a n ((m, b) ∷ links) = (b ≡ a → m ≡ n) × Only a n links

Has-append : (a n : ℕ) (es : List Entry) (e : Entry) → Has a n es → Has a n (es ++ (e ∷ []))
Has-append a n [] e h = absurd h
Has-append a n (x ∷ es) e (inl h) = inl h
Has-append a n (x ∷ es) e (inr h) = inr (Has-append a n es e h)

Linked-append :
    (es : List Entry) (e : Entry) (links : List (ℕ × ℕ))
    → Linked es links
    → Linked (es ++ (e ∷ [])) links
Linked-append es e [] h = tt
Linked-append es e ((n, a) ∷ links) (h, more) =
    (Has-append a n es e h, Linked-append es e links more)

Has-erase_id :
    (id : String) (a n : ℕ) (es : List Entry) (e : Entry)
    → find_id id es ≡ some e
    → e.signo ≢ n
    → Has a n es
    → Has a n (erase_id id es)
unfolding find_id erase_id
Has-erase_id id a n [] e f d h = h
Has-erase_id id a n (x ∷ es) e f d h = ground (arith, Has-erase_id id a n es e)

Linked-erase_signo :
    (n : ℕ) (es : List Entry) (links : List (ℕ × ℕ))
    → Linked es links
    → Linked es (erase_signo n links)
unfolding erase_signo
Linked-erase_signo n es [] h = h
Linked-erase_signo n es ((m, a) ∷ links) h = ground (arith, Linked-erase_signo n es links)

Linked-erase_id :
    (id : String) (es : List Entry) (e : Entry) (links : List (ℕ × ℕ))
    → find_id id es ≡ some e
    → Linked es links
    → Linked (erase_id id es) (erase_signo e.signo links)
unfolding erase_signo
Linked-erase_id id es e [] f h = h
Linked-erase_id id es e ((m, a) ∷ links) f h =
    ground (arith, Linked-erase_id id es e links, Has-erase_id id a m es e)

Has-assign_signo :
    (a n b m : ℕ) (es : List Entry) → a ≢ b → Has a n es → Has a n (assign_signo b m es)
unfolding assign_signo
Has-assign_signo a n b m [] d h = h
Has-assign_signo a n b m (e ∷ es) d h = ground (arith, Has-assign_signo a n b m es)

-- Writing the number through a good pointer.
assign_signo-Has : (a n m : ℕ) (es : List Entry) → Has a n es → Has a m (assign_signo a m es)
unfolding assign_signo
assign_signo-Has a n m [] h = h
assign_signo-Has a n m (e ∷ es) h = ground (arith, assign_signo-Has a n m es)

Linked-assign_signo :
    (es : List Entry) (b m : ℕ) (links : List (ℕ × ℕ))
    → Only b m links
    → Linked es links
    → Linked (assign_signo b m es) (erase_signo m links)
unfolding erase_signo
Linked-assign_signo es b m [] o h = h
Linked-assign_signo es b m ((n, a) ∷ links) o h =
    ground (arith, Linked-assign_signo es b m links, Has-assign_signo a n b m es)

find_signo-Has :
    (n a : ℕ) (es : List Entry) (links : List (ℕ × ℕ))
    → Linked es links
    → find_signo n links ≡ some a
    → Has a n es
unfolding find_signo
find_signo-Has n a es [] h f = absurd cc
find_signo-Has n a es ((m, b) ∷ links) h f = ground (arith, find_signo-Has n a es links)

abbrev pub IsLinked : Container → Type 0
IsLinked c = Linked c.by_id c.by_signo

add_remote_signal-IsLinked :
    (c : Container) (id : String) (hidden : Bool)
    → IsLinked c
    → IsLinked (add_remote_signal c id hidden).0
unfolding add_remote_signal
add_remote_signal-IsLinked c id hidden v = elim (Option-cases (find_id id c.by_id)) [
  | inl e ↦ rw (e, add_remote_signal) (Linked-append c.by_id _ c.by_signo v)
  | inr (e, f) ↦ rw (f, add_remote_signal) v
]

remove_remote_signal-IsLinked :
    (c : Container) (id : String) → IsLinked c → IsLinked (remove_remote_signal c id).0
unfolding remove_remote_signal
remove_remote_signal-IsLinked c id v = elim (Option-cases (find_id id c.by_id)) [
  | inl e ↦ rw (e, remove_remote_signal) v
  | inr (e, f) ↦ rw (f, remove_remote_signal) (Linked-erase_id id c.by_id e c.by_signo f v)
]

-- Giving a number to an entry of the container, to which no other number points, keeps every
-- pointer good.
pub set_remote_signal_signo-IsLinked :
    (c : Container) (address old n : ℕ)
    → IsLinked c
    → Has address old c.by_id
    → Only address n c.by_signo
    → IsLinked (set_remote_signal_signo c address n)
unfolding set_remote_signal_signo
set_remote_signal_signo-IsLinked c address old n v h o =
    (assign_signo-Has address old n c.by_id h, Linked-assign_signo c.by_id address n c.by_signo o v)

-- Adding, removing, forgetting a number and clearing keep every pointer of the map of numbers
-- good: each number points to an entry of the container that has it.
pub operations-IsLinked :
    (c : Container) (id : String) (hidden : Bool) (n : ℕ)
    → IsLinked c
    → IsLinked (add_remote_signal c id hidden).0
      × IsLinked (remove_remote_signal c id).0
      × IsLinked (forget_remote_signo c n)
      × IsLinked (clear_remote_signals c).0
unfolding forget_remote_signo clear_remote_signals
operations-IsLinked c id hidden n v = (
  add_remote_signal-IsLinked c id hidden v,
  remove_remote_signal-IsLinked c id v,
  Linked-erase_signo n c.by_id c.by_signo v,
  tt,
)

-- While the pointers are good, what `find_remote_signal` returns is an entry with that number.
pub find_remote_signal-Has :
    (c : Container) (n a : ℕ) → IsLinked c → find_remote_signal c n ≡ some a → Has a n c.by_id
unfolding find_remote_signal
find_remote_signal-Has c n a v f = find_signo-Has n a c.by_id c.by_signo v f
