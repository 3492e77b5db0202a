-- ===== src/Connection/Delivery.antt =====
-- Data that is published at one end and received at the other: a run of publications, of signals of
-- all kinds that may share their domain signals, arrives as it was published.
pub mod Reports
pub mod Sync
pub mod Arrival
pub mod Steps
pub mod Changes
pub mod Whole
use ws_streaming.Prelude.{ℕ, ◌≡◌, refl, ap, ◌∙◌, List, [], ◌∷◌, ◌++◌, map}
use mathlib.Core.Path.{ap₂}
use ws_streaming.Signals.RemoteSignal.Data.{Report}
use ws_streaming.Connection.Delivery.Sync.{Ends, Layout, InSync}
use ws_streaming.Connection.Delivery.Steps.{
  Publication, publish, IsWhole, with_samples, with_samples-append,
}
use ws_streaming.Connection.Delivery.Whole.{publish-InSync}

-- The publications one after the other, with all that is reported.
pub publish_all : Ends → List Publication → Ends × List (ℕ × Report)
publish_all a [] = (a, [])
publish_all a (p ∷ ps) =
    let (b, reports) = publish a p in let (c, more) = publish_all b ps in (c, reports ++ more)

abbrev pub AllWhole : Layout → List Publication → Type 0
AllWhole l [] = Unit {0}
AllWhole l (p ∷ ps) = IsWhole l p × AllWhole l ps

-- What the application of the other end is to be told of a publication.
abbrev pub expected : Layout → Publication → ℕ × Report
expected l p = (
  l.address p.number,
  record { domain_value = p.domain_value; sample_count = p.sample_count; bytes = p.bytes },
)

-- Between two ends in step, any run of publications of whole samples, of explicit signals and,
-- one sample at a time, of implicit signals, that may share domain signals, is reported at the
-- other end in order, each with its domain value, its number of samples and its bytes, and leaves
-- the ends in step.
pub delivered :
    (l : Layout) (a : Ends) (ps : List Publication)
    → InSync l a
    → AllWhole l ps
    → let (b, reports) = publish_all a ps in
      InSync l b × (with_samples reports ≡ map (expected l) ps)
unfolding publish_all with_samples
delivered l a [] s whole = (s, refl)
delivered l a (p ∷ ps) s (first, rest) =
    let (b, reports) = publish a p in
    let (sync, told) = publish-InSync l a p s first in
    let (sync', more) = delivered l b ps sync rest in
    (
      sync',
      with_samples-append reports (publish_all b ps).1
          ∙ ap₂ (λ (x y : List (ℕ × Report)). x ++ y) told more,
    )
