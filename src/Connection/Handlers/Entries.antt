-- ===== src/Connection/Handlers/Entries.antt =====
-- The entries of the other end's signals by their ids: who is found and shown after each change.
use Prim.Native.String.{String}
use ws_streaming.Prelude.{
  ℕ, ◌≡◌, refl, sym, ◌∙◌, subst, List, [], ◌∷◌, ◌++◌, Bool, true, false, Option, none, some, not,
  if◌then◌else◌, arith, Bool-cases, inl, inr,
}
use ws_streaming.Signals.Ids.{same_id, same_id_iff}
use ws_streaming.Signals.RemoteContainer.{Entry, find_id, erase_id, assign_signo}
use ws_streaming.Connection.Handlers.{unhide}

-- Whether the application has been shown the signal.
unfoldable pub shows : Option Entry → Bool
shows none = false
shows (some e) = not e.hidden

-- Each id has one entry.
unfoldable pub OneEach : List Entry → Type 0
OneEach [] = Unit {0}
OneEach (e ∷ es) = (find_id e.id es ≡ none) × OneEach es

find_id-head :
    (id : String) (e : Entry) (es : List Entry)
    → same_id e.id id ≡ true
    → find_id id (e ∷ es) ≡ some e
unfolding find_id
find_id-head id e es h = rw h

find_id-tail :
    (id : String) (e : Entry) (es : List Entry)
    → same_id e.id id ≡ false
    → find_id id (e ∷ es) ≡ find_id id es
unfolding find_id
find_id-tail id e es h = rw h

pub same_id_refl : (id : String) → same_id id id ≡ true
same_id_refl id = (same_id_iff id id).1 refl

pub same_id-sym : (a b : String) → same_id a b ≡ same_id b a
same_id-sym a b = elim (Bool-cases (same_id a b)) [
  | inl h ↦ h ∙ sym ((same_id_iff b a).1 (sym ((same_id_iff a b).0 h)))
  | inr h ↦ elim (Bool-cases (same_id b a)) [
    | inl k ↦ absurd (differs a b ((same_id_iff a b).1 (sym ((same_id_iff b a).0 k))) h)
    | inr k ↦ h ∙ sym k
  ]
]
  where
    differs : (a b : String) → same_id a b ≡ true → ¬ (same_id a b ≡ false)
    differs a b h k = cc

-- A new entry at the end.
pub find_id-append :
    (id : String) (es : List Entry) (new : Entry)
    → find_id id es ≡ none
    → find_id id (es ++ (new ∷ [])) ≡ (if same_id new.id id then some new else none)
unfolding find_id
find_id-append id [] new h = refl
find_id-append id (e ∷ es) new h = ground (arith, find_id-append id es new)

pub find_id-append_old :
    (id : String) (es : List Entry) (new : Entry)
    → same_id new.id id ≡ false
    → find_id id (es ++ (new ∷ [])) ≡ find_id id es
unfolding find_id
find_id-append_old id [] new h = ground arith
find_id-append_old id (e ∷ es) new h = ground (arith, find_id-append_old id es new)

other_id : (a id x : String) → same_id a id ≡ true → same_id id x ≡ false → same_id a x ≡ false
other_id a id x h k = subst (λ (z : String). same_id z x ≡ false) (sym ((same_id_iff a id).0 h)) k

pub shows-unhide :
    (x id : String) (es : List Entry)
    → same_id id x ≡ false
    → shows (find_id x (unhide id es)) ≡ shows (find_id x es)
unfolding find_id unhide shows
shows-unhide x id [] h = refl
shows-unhide x id (e ∷ es) h = elim (Bool-cases (same_id e.id id)) [
  | inl k ↦ ground (arith, shows-unhide x id es h, k, other_id e.id id x k h)
  | inr k ↦ ground (arith, shows-unhide x id es h, k)
]

-- The entry with the id is shown.
pub shows-unhide_same :
    (id : String) (es : List Entry) (e : Entry)
    → find_id id es ≡ some e
    → shows (find_id id (unhide id es)) ≡ true
unfolding find_id unhide shows
shows-unhide_same id [] e f = ground arith
shows-unhide_same id (x ∷ es) e f = elim (Bool-cases (same_id x.id id)) [
  | inl k ↦ ground (arith, k)
  | inr k ↦ ground (arith, k, shows-unhide_same id es e (sym (find_id-tail id x es k) ∙ f))
]

pub find_id-erase :
    (x id : String) (es : List Entry)
    → same_id id x ≡ false
    → find_id x (erase_id id es) ≡ find_id x es
unfolding find_id erase_id
find_id-erase x id [] h = refl
find_id-erase x id (e ∷ es) h = elim (Bool-cases (same_id e.id id)) [
  | inl k ↦ ground (arith, k, other_id e.id id x k h)
  | inr k ↦ ground (arith, k, find_id-erase x id es h)
]

pub find_id-erase_same :
    (id : String) (es : List Entry) → OneEach es → find_id id (erase_id id es) ≡ none
unfolding find_id erase_id OneEach
find_id-erase_same id [] o = refl
find_id-erase_same id (e ∷ es) (h, o) = elim (Bool-cases (same_id e.id id)) [
  | inl k ↦ rw k (subst (λ (z : String). find_id z es ≡ none) ((same_id_iff e.id id).0 k) h)
  | inr k ↦ ground (arith, k, find_id-erase_same id es o)
]

pub shows-assign_signo :
    (x : String) (address n : ℕ) (es : List Entry)
    → shows (find_id x (assign_signo address n es)) ≡ shows (find_id x es)
unfolding find_id assign_signo shows
shows-assign_signo x address n [] = refl
shows-assign_signo x address n (e ∷ es) = ground (arith, shows-assign_signo x address n es)

-- Whether an id has an entry, which is all that keeps them apart.
SameIds : List Entry → List Entry → Type 0
SameIds es es' = (x : String) → find_id x es ≡ none → find_id x es' ≡ none

unhide-SameIds : (id : String) (es : List Entry) → SameIds es (unhide id es)
unfolding SameIds find_id unhide
unhide-SameIds id [] x h = h
unhide-SameIds id (e ∷ es) x h = ground (arith, unhide-SameIds id es x)

assign_signo-SameIds : (address n : ℕ) (es : List Entry) → SameIds es (assign_signo address n es)
unfolding SameIds find_id assign_signo
assign_signo-SameIds address n [] x h = h
assign_signo-SameIds address n (e ∷ es) x h = ground (arith, assign_signo-SameIds address n es x)

erase_id-SameIds : (id : String) (es : List Entry) → SameIds es (erase_id id es)
unfolding SameIds find_id erase_id
erase_id-SameIds id [] x h = h
erase_id-SameIds id (e ∷ es) x h = ground (arith, erase_id-SameIds id es x)

pub unhide-OneEach : (id : String) (es : List Entry) → OneEach es → OneEach (unhide id es)
unfolding OneEach unhide SameIds
unhide-OneEach id [] o = tt
unhide-OneEach id (e ∷ es) (h, o) =
    let kept = unhide-SameIds id es e.id h in ground (arith, kept, unhide-OneEach id es o)

pub assign_signo-OneEach :
    (address n : ℕ) (es : List Entry) → OneEach es → OneEach (assign_signo address n es)
unfolding OneEach assign_signo SameIds
assign_signo-OneEach address n [] o = tt
assign_signo-OneEach address n (e ∷ es) (h, o) =
    let kept = assign_signo-SameIds address n es e.id h in
    ground (arith, kept, assign_signo-OneEach address n es o)

pub erase_id-OneEach : (id : String) (es : List Entry) → OneEach es → OneEach (erase_id id es)
unfolding OneEach erase_id SameIds
erase_id-OneEach id [] o = tt
erase_id-OneEach id (e ∷ es) (h, o) =
    let kept = erase_id-SameIds id es e.id h in ground (arith, kept, o, erase_id-OneEach id es o)

pub append-OneEach :
    (es : List Entry) (new : Entry)
    → find_id new.id es ≡ none
    → OneEach es
    → OneEach (es ++ (new ∷ []))
unfolding OneEach find_id
append-OneEach [] new h o = (refl, tt)
append-OneEach (e ∷ es) new h (k, o) =
    let apart : same_id e.id new.id ≡ false = ground arith in
    let rest : find_id new.id es ≡ none = ground arith in
    (
      find_id-append_old e.id es new (same_id-sym new.id e.id ∙ apart) ∙ k,
      append-OneEach es new rest o,
    )

-- An entry that is added hidden shows nothing.
pub shows-append_hidden :
    (x : String) (es : List Entry) (new : Entry)
    → new.hidden ≡ true
    → shows (find_id x (es ++ (new ∷ []))) ≡ shows (find_id x es)
unfolding find_id shows
shows-append_hidden x [] new h = ground (arith, h)
shows-append_hidden x (e ∷ es) new h = ground (arith, shows-append_hidden x es new h)
