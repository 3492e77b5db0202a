-- ===== src/Connection/Delivery/Changes.antt =====
-- What a publication changes at either end: the signals and the tables.
use ws_streaming.Prelude.{ℕ, ◌<◌, ◌≡◌, ◌≢◌, refl, sym, ap, ◌∙◌, true, Option, some, ◌==◌, arith}
use ws_streaming.Signals.LinearTable
use ws_streaming.Signals.LinearTable.{LinearTable, word, add-anchored}
use ws_streaming.Signals.LocalContainer.{RegisteredLocalSignal}
use ws_streaming.Signals.RemoteSignal.{RemoteSignal}
use ws_streaming.Connection.Store.{put, put-at, put-off}
use ws_streaming.Connection.Publish.{lock_local, store_local}
use ws_streaming.Connection.Receive.{Remote}
use ws_streaming.Connection.Delivery.Steps.{Told}

pub drive_to-small :
    (t : LinearTable) (i k : ℕ) → (LinearTable.drive_to t (LinearTable.add i k)).driven_index < word
unfolding LinearTable.drive_to
drive_to-small t i k = omega arith

pub driven_value-value_at :
    (t : LinearTable) → LinearTable.driven_value t ≡ LinearTable.value_at t t.driven_index
unfolding LinearTable.driven_value LinearTable.value_at
driven_value-value_at t = refl

pub lock_local-alive :
    (entries : ℕ → RegisteredLocalSignal) (pointer : Option (ℕ × ℕ)) (owner : ℕ)
    → pointer ≡ some (owner, (entries owner).table_made)
    → lock_local entries pointer ≡ (entries owner).table
unfolding lock_local
lock_local-alive entries pointer owner h =
    let same : ((entries owner).table_made == (entries owner).table_made) ≡ true = ground arith in
    rw (h, same)

pub store_local-some :
    (entries : ℕ → RegisteredLocalSignal) (pointer : Option (ℕ × ℕ)) (owner made : ℕ)
    (t : LinearTable)
    → pointer ≡ some (owner, made)
    → store_local entries pointer (some t)
      ≡ put entries owner (record (entries owner) { table = some t })
unfolding store_local
store_local-some entries pointer owner made t h = rw h

-- The entries of the sending end after a publication.
pub sent_entries :
    (entries : ℕ → RegisteredLocalSignal) (n owner v : ℕ) (t : LinearTable) (p : Option (ℕ × ℕ))
    → owner ≢ n
    → p ≡ some (owner, (entries owner).table_made)
    → let after = put (store_local entries p (some t)) n (record (entries n) { value_index = v }) in
      (after n ≡ record (entries n) { value_index = v })
      × (after owner ≡ record (entries owner) { table = some t })
      × ((k : ℕ) → k ≢ n → k ≢ owner → after k ≡ entries k)
sent_entries entries n owner v t p apart h =
    let stored = store_local-some entries p owner (entries owner).table_made t h in
    let x : RegisteredLocalSignal = record (entries n) { value_index = v } in
    let y : RegisteredLocalSignal = record (entries owner) { table = some t } in
    rw stored (
      put-at (put entries owner y) n x,
      put-off (put entries owner y) n owner x apart ∙ put-at entries owner y,
      λ k a b. put-off (put entries owner y) n k x a ∙ put-off entries owner k y b,
    )

-- The signals of the receiving end after the data of an explicit signal, and of an implicit one.
module _ (r r' : Remote) (address owner : ℕ) (t : LinearTable) (told : Told r r' owner t)
    (apart : owner ≢ address) where
  pub same_signal : r'.signals address ≡ r.signals address
  same_signal = told.other address (λ h. apart (sym h))

  pub explicit_signals :
      (w : ℕ) (t' : LinearTable)
      → let driven : RemoteSignal = record (r'.signals owner) { table = some t' } in
        let next : RemoteSignal = record (r'.signals address) { value_index = w } in
        let after = put (put r'.signals owner driven) address next in
        (after address ≡ record (r.signals address) { value_index = w })
        × (after owner ≡ record (r.signals owner) { table = some t' })
        × ((k : ℕ) → k ≢ address → k ≢ owner → after k ≡ r.signals k)
  explicit_signals w t' =
      let x : RemoteSignal = record (r'.signals owner) { table = some t' } in
      let y : RemoteSignal = record (r'.signals address) { value_index = w } in
      let stored = put r'.signals owner x in
      (
        put-at stored address y
            ∙ ap (λ (z : RemoteSignal). record z { value_index = w }) same_signal,
        put-off stored address owner y apart
            ∙ put-at r'.signals owner x
            ∙ ap (λ (z : RemoteSignal). record z { table = some t' }) told.at,
        λ k i j. put-off stored address k y i ∙ put-off r'.signals owner k x j ∙ told.other k j,
      )

  pub implicit_signals :
      let after = put r'.signals address (r'.signals address) in
      (after address ≡ r.signals address)
      × (after owner ≡ record (r.signals owner) { table = some t })
      × ((k : ℕ) → k ≢ address → k ≢ owner → after k ≡ r.signals k)
  implicit_signals =
      let x = r'.signals address in
      (
        put-at r'.signals address x ∙ same_signal,
        put-off r'.signals address owner x apart ∙ told.at,
        λ k i j. put-off r'.signals address k x i ∙ told.other k j,
      )
