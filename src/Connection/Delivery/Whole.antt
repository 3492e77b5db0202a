-- ===== src/Connection/Delivery/Whole.antt =====
-- A publication keeps the two ends in step, and is reported as it was published.
use mathlib.Core.Path.{ap₂}
use ws_streaming.Prelude.{
  ℕ, ◌*◌, ◌<◌, ◌≡◌, ◌≢◌, refl, sym, ap, ◌∙◌, List, [], ◌∷◌, ◌++◌, true, false, none, some, ◌==◌,
  if◌then◌else◌, arith, Bool-cases, inl, inr, subst,
}
use ws_streaming.Signals.LinearTable
use ws_streaming.Signals.LinearTable.{LinearTable, word, add-anchored}
use ws_streaming.Signals.LocalContainer.{RegisteredLocalSignal}
use ws_streaming.Signals.RemoteContainer
use ws_streaming.Signals.RemoteSignal.{RemoteSignal}
use ws_streaming.Signals.RemoteSignal.Data.{Report}
use ws_streaming.Connection.Store.{put}
use ws_streaming.Connection.Publish.{
  Packet, next_index, follow, on_local_signal_data_published, store_local,
}
use ws_streaming.Connection.Receive.{Remote, on_peer_data_received, receive_all}
use ws_streaming.Connection.Delivery.Reports.{IsStreaming}
use ws_streaming.Connection.Delivery.Sync.{Ends, Layout, InSync, Moved, moved-InSync}
use ws_streaming.Connection.Delivery.Arrival.{explicit_arrives, implicit_arrives}
use ws_streaming.Connection.Delivery.Steps.{
  Publication, publish, IsWhole, with_samples, with_samples-append, receive_all-append, Told,
  follow-value, follow-told,
}
use ws_streaming.Connection.Delivery.Changes.{
  drive_to-small, driven_value-value_at, lock_local-alive, sent_entries, same_signal,
  explicit_signals, implicit_signals,
}

-- What a publication does: the new table of the domain, the new indices, and the report.
record Outcome (l : Layout) (a b : Ends) (p : Publication) (reports : List (ℕ × Report))
    : Type 0 where
  table : LinearTable
  v : ℕ
  w : ℕ
  moved : Moved l a b p.number table v w
  small : v < word
  same : (a.entries p.number).is_explicit ≡ true → w ≡ v
  driven : table.driven_index < word
  reported :
      with_samples reports
      ≡ (
        l.address p.number,
        record { domain_value = p.domain_value; sample_count = p.sample_count; bytes = p.bytes },
      )
        ∷ []

module _ (l : Layout) (a : Ends) (p : Publication) (s : InSync l a) (whole : IsWhole l p) where
  owner_apart : l.domain p.number ≢ p.number
  owner_apart h = l.domain_other p.number whole.carried (subst l.IsData (sym h) whole.carried)

  address_apart : l.address (l.domain p.number) ≢ l.address p.number
  address_apart h = owner_apart (
      l.distinct (l.domain p.number) p.number (l.domain_live p.number whole.carried)
        (l.live p.number whole.carried) h)

  -- The packets of the publication, those that tell of a deviation first.
  publish_lem :
      (t : LinearTable)
      → (a.entries (l.domain p.number)).table ≡ some t
      → let e = a.entries p.number in
        let next = LinearTable.add e.value_index p.sample_count in
        let (t1, packets) = follow e t p.domain_value in
        let t2 = if e.is_explicit then LinearTable.drive_to t1 next else t1 in
        let (r1, told) = receive_all a.remote packets in
        let (r2, reports) = on_peer_data_received r1 p.number p.bytes in
        publish a p ≡ (
          record {
            entries =
                put
                  (store_local a.entries e.domain_table (some t2))
                  p.number
                  (record e { value_index = next });
            remote = r2;
          },
          told ++ (reports ++ []),
        )
  unfolding publish on_local_signal_data_published
  publish_lem t h =
      let alive =
        lock_local-alive a.entries (a.entries p.number).domain_table (l.domain p.number)
          (s.pointed p.number whole.carried).local
        ∙ h in
      let e = a.entries p.number in
      let packet : Packet = record { signo = e.signo; bytes = p.bytes } in
      let number = (s.bound p.number (l.live p.number whole.carried)).numbered in
      rw (alive, receive_all-append a.remote (follow e t p.domain_value).1 packet, number)

  module _ (t : LinearTable) (h : (a.entries (l.domain p.number)).table ≡ some t) where
    e : RegisteredLocalSignal
    e = a.entries p.number

    told_table : LinearTable
    unfolding e
    told_table = (follow e t p.domain_value).0

    told_remote : Remote
    unfolding e
    told_remote = (receive_all a.remote (follow e t p.domain_value).1).0

    told :
        Told a.remote told_remote (l.address (l.domain p.number)) told_table
        × (with_samples (receive_all a.remote (follow (a.entries p.number) t p.domain_value).1).1
            ≡ [])
    unfolding told_remote told_table e
    told =
        let mine = s.current p.number (l.live p.number whole.carried) in
        let owner = l.domain_live p.number whole.carried in
        let bound = s.bound (l.domain p.number) owner in
        let current = s.current (l.domain p.number) owner in
        follow-told a.remote (a.entries p.number) t p.domain_value (l.address (l.domain p.number))
          whole.small mine.index_small (current.table_small t h)
          (ap (RemoteContainer.find_remote_signal a.container)
              (s.pointed p.number whole.carried).local_signo
            ∙ bound.linked)
          bound.streaming (current.same_table ∙ h)

    at_signal : told_remote.signals (l.address p.number) ≡ a.signals (l.address p.number)
    at_signal =
        same_signal a.remote told_remote (l.address p.number) (l.address (l.domain p.number))
          told_table told.0 address_apart

    -- What the receiving signal knows when the data arrives.
    ready :
        let x = told_remote.signals (l.address p.number) in
        let owner = l.address (l.domain p.number) in
        (RemoteContainer.find_remote_signal told_remote.container p.number
          ≡ some (l.address p.number))
        × IsStreaming x
        × (x.table ≡ none)
        × (x.is_explicit ≡ (a.entries p.number).is_explicit)
        × (x.domain_table ≡ some (owner, (told_remote.signals owner).table_made))
        × ((told_remote.signals owner).table ≡ some told_table)
        × (x.sample_size ≡ l.size p.number)
        × (x.value_index ≡ (a.signals (l.address p.number)).value_index)
    ready =
        let live = l.live p.number whole.carried in
        let bound = s.bound p.number live in
        let pointed = s.pointed p.number whole.carried in
        let owner = l.address (l.domain p.number) in
        (
          rw told.0.container bound.linked,
          subst IsStreaming (sym at_signal) bound.streaming,
          ap (λ (z : RemoteSignal). z.table) at_signal
              ∙ (s.current p.number live).same_table
              ∙ s.plain p.number whole.carried,
          ap (λ (z : RemoteSignal). z.is_explicit) at_signal ∙ bound.same_rule,
          ap (λ (z : RemoteSignal). z.domain_table) at_signal
              ∙ pointed.remote
              ∙ ap (λ (z : RemoteSignal). some (owner, z.table_made)) (sym told.0.at),
          ap (λ (z : RemoteSignal). z.table) told.0.at,
          ap (λ (z : RemoteSignal). z.sample_size) at_signal ∙ pointed.sized,
          ap (λ (z : RemoteSignal). z.value_index) at_signal,
        )

    value :
        (LinearTable.value_at told_table (next_index (a.entries p.number) told_table)
          ≡ p.domain_value)
        × (next_index (a.entries p.number) told_table ≡ next_index (a.entries p.number) t)
        × (told_table.driven_index < word)
    unfolding told_table e
    value =
        follow-value (a.entries p.number) t p.domain_value whole.small
          (s.current p.number (l.live p.number whole.carried)).index_small
          ((s.current (l.domain p.number) (l.domain_live p.number whole.carried)).table_small t h)

    reports-samples :
        (r : Report)
        → r.sample_count ≡ p.sample_count
        → with_samples (
            (receive_all a.remote (follow (a.entries p.number) t p.domain_value).1).1
            ++ (((l.address p.number, r) ∷ []) ++ []))
          ≡ (l.address p.number, r) ∷ []
    unfolding with_samples
    reports-samples r same =
        let packets = (follow (a.entries p.number) t p.domain_value).1 in
        let first = (receive_all a.remote packets).1 in
        let some_count : (r.sample_count == 0) ≡ false = ground (arith, whole.some_samples) in
        with_samples-append first ((l.address p.number, r) ∷ [])
        ∙ ap (λ (x : List (ℕ × Report)). x ++ with_samples ((l.address p.number, r) ∷ [])) told.1
        ∙ rw some_count

    next : ℕ
    next = LinearTable.add (a.entries p.number).value_index p.sample_count

    published :
        (signals : ℕ → RemoteSignal) (t' : LinearTable) (report : Report)
        → on_peer_data_received told_remote p.number p.bytes
          ≡ (record told_remote { signals = signals }, (l.address p.number, report) ∷ [])
        → (if (a.entries p.number).is_explicit
            then LinearTable.drive_to told_table next
            else told_table)
          ≡ t'
        → let e = a.entries p.number in
          let first = (receive_all a.remote (follow e t p.domain_value).1).1 in
          publish a p ≡ (
            record {
              entries =
                  put
                    (store_local a.entries e.domain_table (some t'))
                    p.number
                    (record e { value_index = next });
              remote = record told_remote { signals = signals };
            },
            first ++ (((l.address p.number, report) ∷ []) ++ []),
          )
    unfolding told_table told_remote e next
    published signals t' report arrives driven =
        publish_lem t h
        ∙ ap
            (λ (z : LinearTable × Remote × List (ℕ × Report)). (
              record {
                entries =
                    put (store_local a.entries (a.entries p.number).domain_table (some z.0))
                      p.number
                      (record (a.entries p.number) {
                        value_index =
                            LinearTable.add (a.entries p.number).value_index p.sample_count;
                      });
                remote = z.1;
              },
              (receive_all a.remote (follow (a.entries p.number) t p.domain_value).1).1
                  ++ (z.2 ++ []),
            ))
            (ap₂ (λ (q : LinearTable) (z : Remote × List (ℕ × Report)). (q, z.0, z.1)) driven
              arrives)

    make-Outcome :
        (signals : ℕ → RemoteSignal) (t' : LinearTable) (w : ℕ) (report : Report)
        → on_peer_data_received told_remote p.number p.bytes
          ≡ (record told_remote { signals = signals }, (l.address p.number, report) ∷ [])
        → (if (a.entries p.number).is_explicit
            then LinearTable.drive_to told_table next
            else told_table)
          ≡ t'
        → let address = l.address p.number in
          let owner = l.address (l.domain p.number) in
          (signals address ≡ record (a.signals address) { value_index = w })
            × (signals owner ≡ record (a.signals owner) { table = some t' })
            × ((k : ℕ) → k ≢ address → k ≢ owner → signals k ≡ a.signals k)
          → ((a.entries p.number).is_explicit ≡ true → w ≡ next)
          → t'.driven_index < word
          → report ≡ record {
            domain_value = p.domain_value;
            sample_count = p.sample_count;
            bytes = p.bytes;
          }
          → Outcome l a (publish a p).0 p (publish a p).1
    unfolding next
    make-Outcome signals t' w report arrives driven (at, at_owner, off) same low e =
        let (entry, entry_domain, entry_other) =
          sent_entries a.entries p.number (l.domain p.number) next t'
            (a.entries p.number).domain_table owner_apart
            (s.pointed p.number whole.carried).local in
        subst (λ (z : Ends × List (ℕ × Report)). Outcome l a z.0 p z.1)
          (sym (published signals t' report arrives driven))
          (record {
            table = t';
            v = next;
            w = w;
            moved = record {
              entry = entry;
              entry_domain = entry_domain;
              entry_other = entry_other;
              signal = at;
              signal_domain = at_owner;
              signal_other = off;
              container = told.0.container;
            };
            small = omega arith;
            same = same;
            driven = low;
            reported =
                reports-samples report (ap (λ (z : Report). z.sample_count) e)
                ∙ ap (λ (z : Report). (l.address p.number, z) ∷ []) e;
          })

    explicit-Outcome :
        (a.entries p.number).is_explicit ≡ true → Outcome l a (publish a p).0 p (publish a p).1
    unfolding next next_index
    explicit-Outcome x =
        let (link, streaming, none_there, rule, pointer, table, size, index) = ready in
        let owner = l.address (l.domain p.number) in
        let address = l.address p.number in
        let signal = told_remote.signals address in
        let w = LinearTable.add signal.value_index p.sample_count in
        let live = l.live p.number whole.carried in
        let same_index = index ∙ (s.current p.number live).same_index x in
        let at_next : next_index (a.entries p.number) told_table ≡ signal.value_index =
          rw x (sym same_index) in
        make-Outcome _ (LinearTable.drive_to told_table w) w _
          (explicit_arrives told_remote p.number address owner p.sample_count told_table p.bytes
            link streaming none_there (rule ∙ x) pointer table
            (rw size (s.pointed p.number whole.carried).positive)
            (whole.sized ∙ ap (λ (k : ℕ). p.sample_count * k) (sym size)))
          (rw (x, same_index) refl)
          (explicit_signals a.remote told_remote address owner told_table told.0 address_apart w
            (LinearTable.drive_to told_table w))
          (λ _. ap (λ (k : ℕ). LinearTable.add k p.sample_count) same_index)
          (drive_to-small told_table signal.value_index p.sample_count)
          (ap
            (λ (k : ℕ). record { domain_value = k; sample_count = p.sample_count; bytes = p.bytes })
            (ap (LinearTable.value_at told_table) (sym at_next) ∙ value.0))

    implicit-Outcome :
        (a.entries p.number).is_explicit ≡ false → Outcome l a (publish a p).0 p (publish a p).1
    unfolding next_index
    implicit-Outcome x =
        let (link, streaming, none_there, rule, pointer, table, size, index) = ready in
        let owner = l.address (l.domain p.number) in
        let address = l.address p.number in
        let single = whole.single (sym (s.pointed p.number whole.carried).ruled ∙ x) in
        let at_next : next_index (a.entries p.number) told_table ≡ told_table.driven_index =
          rw x refl in
        make-Outcome _ told_table (a.signals address).value_index _
          (implicit_arrives told_remote p.number address owner told_table p.bytes link streaming
            none_there (rule ∙ x) pointer table
            (whole.sized ∙ ap (λ (k : ℕ). k * l.size p.number) single ∙ omega (arith, size)))
          (rw x refl)
          (implicit_signals a.remote told_remote address owner told_table told.0 address_apart)
          (λ q. cc) value.2
          (ap₂ (λ (k c : ℕ). record { domain_value = k; sample_count = c; bytes = p.bytes })
            (driven_value-value_at told_table
              ∙ ap (LinearTable.value_at told_table) (sym at_next)
              ∙ value.0)
            (sym single))

  publish-Outcome : Outcome l a (publish a p).0 p (publish a p).1
  publish-Outcome =
      let (t, h) = s.has_table p.number whole.carried in
      elim (Bool-cases (a.entries p.number).is_explicit) [
        | inl x ↦ explicit-Outcome t h x
        | inr x ↦ implicit-Outcome t h x
      ]

-- One publication of whole samples keeps the ends in step, and the other end reports it.
pub publish-InSync :
    (l : Layout) (a : Ends) (p : Publication)
    → InSync l a
    → IsWhole l p
    → let (b, reports) = publish a p in
      InSync l b
      × (with_samples reports
          ≡ (
            l.address p.number,
            record {
              domain_value = p.domain_value;
              sample_count = p.sample_count;
              bytes = p.bytes;
            },
          )
            ∷ [])
publish-InSync l a p s whole =
    let o = publish-Outcome l a p s whole in
    (
      moved-InSync l a (publish a p).0 p.number o.table o.v o.w o.moved s whole.carried o.small
          o.same o.driven,
      o.reported,
    )
