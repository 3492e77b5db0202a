-- ===== src/Signals/LocalContainer.antt =====
-- src/detail/local_signal_container.cpp, include/ws-streaming/detail/local_signal_container.hpp and
-- registered_local_signal.hpp: the signals of this end, by number. A `local_signal&` is the signal's
-- address and id. The map is its entries in the order of their numbers, and `unsigned` has 32 bits.
pub mod Numbers
use Prim.Native.String.{String}
use ws_streaming.Prelude.{
  ℕ, ◌+◌, ◌%◌, ◌^◌, List, [], ◌∷◌, Bool, true, false, Option, none, some, ◌==◌, ltb, if◌then◌else◌,
}
use ws_streaming.Signals.Ids.{same_id}
use ws_streaming.Signals.LinearTable.{LinearTable}

pub record LocalSignal : Type 0 where
  pub address : ℕ
  pub id : String

-- The two slots and the holder are put in place together and go together: `connected` is whether
-- they are there. A table is made more than once: `table_made` counts how often, and a weak pointer
-- to a table is the number of the signal that owns it with the count at which it was made.
-- `domain_signo` has no initial value in the source, where it is not read before it is set.
pub record RegisteredLocalSignal : Type 0 where
  pub signal : LocalSignal
  pub signo : ℕ
  pub is_explicitly_subscribed : Bool
  pub implicit_subscribe_count : ℕ
  pub value_index : ℕ
  pub is_explicit : Bool
  pub connected : Bool
  pub table : Option LinearTable
  pub table_made : ℕ
  pub domain_signo : ℕ
  pub domain_table : Option (ℕ × ℕ)

abbrev pub registered_local_signal : LocalSignal → ℕ → RegisteredLocalSignal
registered_local_signal signal signo = record {
  signal = signal;
  signo = signo;
  is_explicitly_subscribed = false;
  implicit_subscribe_count = 0;
  value_index = 0;
  is_explicit = false;
  connected = false;
  table = none;
  table_made = 0;
  domain_signo = 0;
  domain_table = none;
}

pub record Container : Type 0 where
  pub signals : List RegisteredLocalSignal
  pub next_signo : ℕ

abbrev pub local_signal_container : Container
local_signal_container = record { signals = []; next_signo = 1 }

-- The `find_if` over the addresses.
pub find_address : ℕ → List RegisteredLocalSignal → Option RegisteredLocalSignal
find_address a [] = none
find_address a (e ∷ es) =
    let rest = find_address a es in if e.signal.address == a then some e else rest

-- `_signals.find`
pub find_signo : ℕ → List RegisteredLocalSignal → Option RegisteredLocalSignal
find_signo n [] = none
find_signo n (e ∷ es) = let rest = find_signo n es in if e.signo == n then some e else rest

-- `_signals.emplace` at the entry's number: the map, and the entry that stands there.
pub emplace :
    RegisteredLocalSignal
    → List RegisteredLocalSignal
    → List RegisteredLocalSignal × RegisteredLocalSignal
emplace new [] = (new ∷ [], new)
emplace new (e ∷ es) =
    let (es', found) = emplace new es in
    if e.signo == new.signo
    then (e ∷ es, e)
    else if ltb new.signo e.signo
    then (new ∷ e ∷ es, new)
    else (e ∷ es', found)

pub erase_signo : ℕ → List RegisteredLocalSignal → List RegisteredLocalSignal
erase_signo n [] = []
erase_signo n (e ∷ es) = let rest = erase_signo n es in if e.signo == n then es else e ∷ rest

-- The entry, and whether it is new.
unfoldable pub add_local_signal : Container → LocalSignal → Container × RegisteredLocalSignal × Bool
unfolding find_address emplace
add_local_signal c signal = elim (find_address signal.address c.signals) [
  | some e ↦ (c, e, false)
  | none ↦
      let (signals', e) = emplace (registered_local_signal signal c.next_signo) c.signals in
      (record { signals = signals'; next_signo = (c.next_signo + 1) % 2 ^ 32 }, e, true)
]

-- The number that the signal had, 0 if none.
unfoldable pub remove_local_signal : Container → LocalSignal → Container × ℕ
unfolding find_address erase_signo
remove_local_signal c signal = elim (find_address signal.address c.signals) [
  | none ↦ (c, 0)
  | some e ↦ (record c { signals = erase_signo e.signo c.signals }, e.signo)
]

disconnect_all : List RegisteredLocalSignal → List RegisteredLocalSignal
disconnect_all [] = []
disconnect_all (e ∷ es) = record e { connected = false } ∷ disconnect_all es

-- The entries, which other owners may still hold, are disconnected before they go.
unfoldable pub clear_local_signals : Container → Container × List RegisteredLocalSignal
unfolding disconnect_all
clear_local_signals c = (record c { signals = [] }, disconnect_all c.signals)

-- `find_local_signal(const std::string&)`
unfoldable pub find_local_signal_id :
    List RegisteredLocalSignal → String → Option RegisteredLocalSignal
find_local_signal_id [] id = none
find_local_signal_id (e ∷ es) id =
    let rest = find_local_signal_id es id in if same_id e.signal.id id then some e else rest

-- `find_local_signal(unsigned)`
unfoldable pub find_local_signal : Container → ℕ → Option RegisteredLocalSignal
unfolding find_signo
find_local_signal c n = find_signo n c.signals
