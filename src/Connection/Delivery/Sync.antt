-- ===== src/Connection/Delivery/Sync.antt =====
-- When the two ends of a connection agree, and the changes that keep it so.
use ws_streaming.Prelude.{
  ℕ, ◌<◌, ◌≡◌, ◌≢◌, refl, sym, ap, ◌∙◌, Bool, true, Option, none, some, ◌==◌, ==_iff, arith,
  Bool-cases, inl, inr, ◌⊎◌, subst,
}
use ws_streaming.Signals.LinearTable.{LinearTable, word}
use ws_streaming.Signals.LocalContainer.{RegisteredLocalSignal}
use ws_streaming.Signals.RemoteContainer
use ws_streaming.Signals.RemoteSignal.{RemoteSignal}
use ws_streaming.Connection.Receive.{Remote}
use ws_streaming.Connection.Delivery.Reports.{IsStreaming}

-- The sending end by the numbers of its signals, and the receiving end.
pub record Ends : Type 0 where
  pub entries : ℕ → RegisteredLocalSignal
  pub remote : Remote
  pub open remote use {signals, container}

-- The numbers in use, those of them that carry data, the number of the domain signal of each of
-- these, the address of each at the receiving end, and its sample size and whether it is explicit.
pub record Layout : Type 1 where
  pub IsLive : ℕ → Type 0
  pub IsData : ℕ → Type 0
  pub domain : ℕ → ℕ
  pub address : ℕ → ℕ
  pub size : ℕ → ℕ
  pub explicit : ℕ → Bool
  pub live : (n : ℕ) → IsData n → IsLive n
  pub domain_live : (n : ℕ) → IsData n → IsLive (domain n)
  pub domain_other : (n : ℕ) → IsData n → ¬ IsData (domain n)
  pub distinct : (n m : ℕ) → IsLive n → IsLive m → address n ≡ address m → n ≡ m

-- What does not change when data is published.
pub record Bound (l : Layout) (ends : Ends) (n : ℕ) : Type 0 where
  pub numbered : (ends.entries n).signo ≡ n
  pub linked : RemoteContainer.find_remote_signal ends.container n ≡ some (l.address n)
  pub streaming : IsStreaming (ends.signals (l.address n))
  pub same_rule : (ends.signals (l.address n)).is_explicit ≡ (ends.entries n).is_explicit

-- A data signal points to its domain signal's table at both ends.
pub record Pointed (l : Layout) (ends : Ends) (n : ℕ) : Type 0 where
  pub local :
      (ends.entries n).domain_table ≡ some (l.domain n, (ends.entries (l.domain n)).table_made)
  pub local_signo : (ends.entries n).domain_signo ≡ l.domain n
  pub remote :
      (ends.signals (l.address n)).domain_table
      ≡ some (l.address (l.domain n), (ends.signals (l.address (l.domain n))).table_made)
  pub sized : (ends.signals (l.address n)).sample_size ≡ l.size n
  pub positive : 0 < l.size n
  pub ruled : (ends.entries n).is_explicit ≡ l.explicit n

-- What the two ends count alike. An implicit signal's own index is not used.
pub record Current (e : RegisteredLocalSignal) (s : RemoteSignal) : Type 0 where
  pub same_table : s.table ≡ e.table
  pub same_index : e.is_explicit ≡ true → s.value_index ≡ e.value_index
  pub index_small : e.value_index < word
  pub table_small : (t : LinearTable) → e.table ≡ some t → t.driven_index < word

pub record InSync (l : Layout) (ends : Ends) : Type 0 where
  pub bound : (n : ℕ) → l.IsLive n → Bound l ends n
  pub pointed : (n : ℕ) → l.IsData n → Pointed l ends n
  pub current : (n : ℕ) → l.IsLive n → Current (ends.entries n) (ends.signals (l.address n))
  pub plain : (n : ℕ) → l.IsData n → (ends.entries n).table ≡ none
  pub has_table :
      (n : ℕ) → l.IsData n → (t : LinearTable) × ((ends.entries (l.domain n)).table ≡ some t)

-- The change that publishing makes: the signal's index at both ends, and the domain's table.
pub record Moved (l : Layout) (a b : Ends) (n : ℕ) (t : LinearTable) (v w : ℕ) : Type 0 where
  pub entry : b.entries n ≡ record (a.entries n) { value_index = v }
  pub entry_domain : b.entries (l.domain n) ≡ record (a.entries (l.domain n)) { table = some t }
  pub entry_other : (k : ℕ) → k ≢ n → k ≢ l.domain n → b.entries k ≡ a.entries k
  pub signal : b.signals (l.address n) ≡ record (a.signals (l.address n)) { value_index = w }
  pub signal_domain :
      b.signals (l.address (l.domain n))
      ≡ record (a.signals (l.address (l.domain n))) { table = some t }
  pub signal_other :
      (k : ℕ) → k ≢ l.address n → k ≢ l.address (l.domain n) → b.signals k ≡ a.signals k
  pub container : b.container ≡ a.container

-- The fields that such a change leaves.
KeepsEntry : RegisteredLocalSignal → RegisteredLocalSignal → Type 0
KeepsEntry e e' =
    (e'.signo ≡ e.signo)
    × (e'.is_explicit ≡ e.is_explicit)
    × (e'.table_made ≡ e.table_made)
    × (e'.domain_signo ≡ e.domain_signo)
    × (e'.domain_table ≡ e.domain_table)

KeepsSignal : RemoteSignal → RemoteSignal → Type 0
KeepsSignal s s' =
    (s'.is_subscribed ≡ s.is_subscribed)
    × (s'.tcp_delta ≡ s.tcp_delta)
    × (s'.is_explicit ≡ s.is_explicit)
    × (s'.table_made ≡ s.table_made)
    × (s'.sample_size ≡ s.sample_size)
    × (s'.domain_table ≡ s.domain_table)

driven_of : Option LinearTable → ℕ
driven_of none = 0
driven_of (some t) = t.driven_index

one_of : (k n m : ℕ) → (k ≡ n) ⊎ ((k ≡ m) ⊎ ((k ≢ n) × (k ≢ m)))
one_of k n m = elim (Bool-cases (k == n)) [
  | inl e ↦ inl ((==_iff k n).0 e)
  | inr e ↦ elim (Bool-cases (k == m)) [
    | inl f ↦ inr (inl ((==_iff k m).0 f))
    | inr f ↦ inr (inr ((λ h. ground (arith, e, h)), (λ h. ground (arith, f, h))))
  ]
]

module _ (l : Layout) (a b : Ends) (n : ℕ) (t : LinearTable) (v w : ℕ)
    (moved : Moved l a b n t v w) where
  entry_kept : (k : ℕ) → KeepsEntry (a.entries k) (b.entries k)
  unfolding KeepsEntry
  entry_kept k = elim (one_of k n (l.domain n)) [
    | inl e ↦ rw (e, moved.entry) (refl, refl, refl, refl, refl)
    | inr (inl e) ↦ rw (e, moved.entry_domain) (refl, refl, refl, refl, refl)
    | inr (inr (x, y)) ↦ rw (moved.entry_other k x y) (refl, refl, refl, refl, refl)
  ]

  signal_kept : (k : ℕ) → KeepsSignal (a.signals k) (b.signals k)
  unfolding KeepsSignal
  signal_kept k = elim (one_of k (l.address n) (l.address (l.domain n))) [
    | inl e ↦ rw (e, moved.signal) (refl, refl, refl, refl, refl, refl)
    | inr (inl e) ↦ rw (e, moved.signal_domain) (refl, refl, refl, refl, refl, refl)
    | inr (inr (x, y)) ↦ rw (moved.signal_other k x y) (refl, refl, refl, refl, refl, refl)
  ]

  kept-Bound : (k : ℕ) → Bound l a k → Bound l b k
  unfolding KeepsEntry KeepsSignal
  kept-Bound k h =
      let (signo, rule, _, _, _) = entry_kept k in
      let (subscribed, delta, explicit, _, _, _) = signal_kept (l.address k) in
      record {
        numbered = signo ∙ h.numbered;
        linked = rw moved.container h.linked;
        streaming = record {
          subscribed = subscribed ∙ h.streaming.subscribed;
          untimed = delta ∙ h.streaming.untimed;
        };
        same_rule = explicit ∙ h.same_rule ∙ sym rule;
      }

  kept-Pointed : (k : ℕ) → Pointed l a k → Pointed l b k
  unfolding KeepsEntry KeepsSignal
  kept-Pointed k h =
      let (_, rule, _, signo, pointer) = entry_kept k in
      let (_, _, made, _, _) = entry_kept (l.domain k) in
      let (_, _, _, _, size, weak) = signal_kept (l.address k) in
      let (_, _, _, made2, _, _) = signal_kept (l.address (l.domain k)) in
      record {
        local = pointer ∙ h.local ∙ ap (λ (x : ℕ). some (l.domain k, x)) (sym made);
        local_signo = signo ∙ h.local_signo;
        remote = weak ∙ h.remote ∙ ap (λ (x : ℕ). some (l.address (l.domain k), x)) (sym made2);
        sized = size ∙ h.sized;
        positive = h.positive;
        ruled = rule ∙ h.ruled;
      }

  kept-Current :
      (k : ℕ)
      → InSync l a
      → l.IsData n
      → l.IsLive k
      → v < word
      → ((a.entries n).is_explicit ≡ true → w ≡ v)
      → t.driven_index < word
      → Current (b.entries k) (b.signals (l.address k))
  unfolding driven_of
  kept-Current k s d live small same driven = elim (one_of k n (l.domain n)) [
    | inl e ↦
        let c = s.current n (l.live n d) in
        rw (e, moved.entry, moved.signal)
          (record {
            same_table = c.same_table;
            same_index = same;
            index_small = small;
            table_small = c.table_small;
          })
    | inr (inl e) ↦
        let c = s.current (l.domain n) (l.domain_live n d) in
        rw (e, moved.entry_domain, moved.signal_domain)
          (record {
            same_table = refl;
            same_index = c.same_index;
            index_small = c.index_small;
            table_small = λ q h. omega (arith, driven, ap driven_of h);
          })
    | inr (inr (x, y)) ↦
        rw
          (
            moved.entry_other k x y,
            moved.signal_other (l.address k) (λ h. x (l.distinct k n live (l.live n d) h))
                (λ h. y (l.distinct k (l.domain n) live (l.domain_live n d) h)),
          )
          (s.current k live)
  ]

  plain_stays : (k : ℕ) → InSync l a → l.IsData n → l.IsData k → (b.entries k).table ≡ none
  plain_stays k s d data_k = elim (one_of k n (l.domain n)) [
    | inl e ↦ rw (e, moved.entry) (s.plain n d)
    | inr (inl e) ↦ absurd (l.domain_other n d (subst l.IsData e data_k))
    | inr (inr (x, y)) ↦ rw (moved.entry_other k x y) (s.plain k data_k)
  ]

  has_table_stays :
      (k : ℕ)
      → InSync l a
      → l.IsData n
      → l.IsData k
      → (q : LinearTable) × ((b.entries (l.domain k)).table ≡ some q)
  has_table_stays k s d data_k = elim (one_of (l.domain k) n (l.domain n)) [
    | inl e ↦ absurd (l.domain_other k data_k (subst l.IsData (sym e) d))
    | inr (inl e) ↦ (t, rw (e, moved.entry_domain) refl)
    | inr (inr (x, y)) ↦
        let (q, h) = s.has_table k data_k in (q, rw (moved.entry_other (l.domain k) x y) h)
  ]

  pub moved-InSync :
      InSync l a
      → l.IsData n
      → v < word
      → ((a.entries n).is_explicit ≡ true → w ≡ v)
      → t.driven_index < word
      → InSync l b
  moved-InSync s d small same driven = record {
    bound = λ k h. kept-Bound k (s.bound k h);
    pointed = λ k h. kept-Pointed k (s.pointed k h);
    current = λ k h. kept-Current k s d h small same driven;
    plain = λ k h. plain_stays k s d h;
    has_table = λ k h. has_table_stays k s d h;
  }
