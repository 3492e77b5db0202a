-- ===== src/Signals/RemoteContainer.antt =====
-- src/detail/remote_signal_container.cpp and include/ws-streaming/detail/remote_signal_container.hpp:
-- the signals of the other end, by id and by number. An entry is identified by its `address`, the
-- number of its allocation; the map of numbers points to addresses. The slots of an entry are left
-- out. Each map holds a key once, and the order of its keys is not used here.
pub mod Links
pub mod Stale
use Prim.Native.String.{String}
use ws_streaming.Prelude.{
  ℕ, ◌+◌, List, [], ◌∷◌, ◌++◌, Bool, true, false, Option, none, some, not, ◌==◌, if◌then◌else◌,
}
use ws_streaming.Signals.Ids.{same_id}

pub record Entry : Type 0 where
  pub id : String
  pub hidden : Bool
  pub signo : ℕ
  pub address : ℕ

pub record Container : Type 0 where
  pub by_id : List Entry
  pub by_signo : List (ℕ × ℕ)
  pub next_address : ℕ

unfoldable pub find_id : String → List Entry → Option Entry
find_id id [] = none
find_id id (e ∷ es) = let rest = find_id id es in if same_id e.id id then some e else rest

unfoldable pub erase_id : String → List Entry → List Entry
erase_id id [] = []
erase_id id (e ∷ es) = let rest = erase_id id es in if same_id e.id id then es else e ∷ rest

pub find_signo : ℕ → List (ℕ × ℕ) → Option ℕ
find_signo n [] = none
find_signo n ((m, a) ∷ links) = let rest = find_signo n links in if m == n then some a else rest

pub erase_signo : ℕ → List (ℕ × ℕ) → List (ℕ × ℕ)
erase_signo n [] = []
erase_signo n ((m, a) ∷ links) =
    let rest = erase_signo n links in if m == n then rest else (m, a) ∷ rest

-- `entry->signal->signo(signo)` through the pointer.
unfoldable pub assign_signo : ℕ → ℕ → List Entry → List Entry
assign_signo address n [] = []
assign_signo address n (e ∷ es) =
    (if e.address == address then record e { signo = n } else e) ∷ assign_signo address n es

-- Whether the signal is new, and its entry.
unfoldable pub add_remote_signal : Container → String → Bool → Container × Bool × Entry
unfolding find_id
add_remote_signal c id hidden =
    let entry : Entry = record { id = id; hidden = hidden; signo = 0; address = c.next_address } in
    elim (find_id id c.by_id) [
      | some e ↦ (c, false, e)
      | none ↦ (
        record c { by_id = c.by_id ++ (entry ∷ []); next_address = c.next_address + 1 },
        true,
        entry,
      )
    ]

-- `find_remote_signal(unsigned)`: the pointer.
unfoldable pub find_remote_signal : Container → ℕ → Option ℕ
unfolding find_signo
find_remote_signal c n = find_signo n c.by_signo

unfoldable pub remove_remote_signal : Container → String → Container × Option Entry
unfolding find_id erase_id erase_signo
remove_remote_signal c id = elim (find_id id c.by_id) [
  | none ↦ (c, none)
  | some e ↦
      (record c { by_id = erase_id id c.by_id; by_signo = erase_signo e.signo c.by_signo }, some e)
]

unfoldable pub forget_remote_signo : Container → ℕ → Container
unfolding erase_signo
forget_remote_signo c n = record c { by_signo = erase_signo n c.by_signo }

unfoldable pub set_remote_signal_signo : Container → ℕ → ℕ → Container
unfolding erase_signo assign_signo
set_remote_signal_signo c address n = record c {
  by_signo = (n, address) ∷ erase_signo n c.by_signo;
  by_id = assign_signo address n c.by_id;
}

-- The signals that are not hidden, in the order in which `func` is called.
unfoldable pub shown : List Entry → List Entry
shown [] = []
shown (e ∷ es) = let rest = shown es in if not e.hidden then e ∷ rest else rest

unfoldable pub clear_remote_signals : Container → Container × List Entry
unfolding shown
clear_remote_signals c = (record c { by_id = []; by_signo = [] }, shown c.by_id)
