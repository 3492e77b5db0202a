-- ===== src/Examples/Signals.antt =====
-- Tables and containers with a few signals.
use ws_streaming.Prelude.{◌+◌, ◌≡◌, ◌<◌, refl, inl, [], ◌∷◌, true, false, none, some, arith}
use ws_streaming.Signals.LinearTable.{LinearTable, Metadata}
use ws_streaming.Signals.LocalContainer as Local
use ws_streaming.Signals.LocalContainer.Numbers as Numbers
use ws_streaming.Signals.RemoteContainer as Remote
use ws_streaming.Signals.RemoteContainer.Links as Links
use ws_streaming.Signals.RemoteContainer.Stale as Stale

abbrev table : LinearTable
table = record { id = "t"; index = 0; value = 100; delta = 10; driven_index = 0 }

abbrev given : Metadata
given = record { table_id = ""; start = some 7; delta = none; value_index = some 4 }

abbrev first : Local.LocalSignal
first = record { address = 10; id = "a" }

abbrev second : Local.LocalSignal
second = record { address = 20; id = "b" }

none-IsValid : Numbers.IsValid Local.local_signal_container
none-IsValid = record { ascending = tt; distinct = tt; some_signo = omega arith }

abbrev one : Local.Container
one = (Local.add_local_signal Local.local_signal_container first).0

one-IsValid : Numbers.IsValid one
one-IsValid =
    (Numbers.add_local_signal-IsValid Local.local_signal_container first none-IsValid
      (omega arith)).0

one_next : one.next_signo + 1 < 4294967296
unfolding Local.add_local_signal
one_next = omega arith

add_local_signal-IsValid_example :
    let (c', e, added) = Local.add_local_signal one second in
    Numbers.IsValid c'
    × (e.signal.address ≡ 20)
    × (Local.find_local_signal c' e.signo ≡ some e)
    × (0 < e.signo)
add_local_signal-IsValid_example = Numbers.add_local_signal-IsValid one second one-IsValid one_next

abbrev entry : Remote.Entry
entry = record { id = "x"; hidden = false; signo = 5; address = 0 }

abbrev linked : Remote.Container
linked = record { by_id = entry ∷ []; by_signo = (5, 0) ∷ []; next_address = 1 }

linked-IsLinked : Links.IsLinked linked
linked-IsLinked = (inl (refl, refl), tt)

operations-IsLinked_example :
    Links.IsLinked (Remote.add_remote_signal linked "y" true).0
    × Links.IsLinked (Remote.remove_remote_signal linked "y").0
    × Links.IsLinked (Remote.forget_remote_signo linked 5)
    × Links.IsLinked (Remote.clear_remote_signals linked).0
operations-IsLinked_example = Links.operations-IsLinked linked "y" true 5 linked-IsLinked

found_id : Remote.find_id "x" linked.by_id ≡ some entry
unfolding Remote.find_id
found_id = refl

alone : Stale.IsFree 0 (Remote.erase_id "x" linked.by_id)
unfolding Remote.erase_id
alone = tt

remove-set-set_stale_example :
    let c' =
      (Remote.remove_remote_signal
        (Remote.set_remote_signal_signo (Remote.set_remote_signal_signo linked 0 6) 0 7)
        "x").0 in
    (Remote.find_remote_signal c' 6 ≡ some 0) × Stale.IsFree 0 c'.by_id
remove-set-set_stale_example =
    Stale.remove-set-set_stale linked "x" entry 6 7 found_id alone (λ e. omega (arith, e))
