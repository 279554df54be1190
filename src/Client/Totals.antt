-- ===== src/Client/Totals.antt =====
-- client.go, applyTotal: a running total becomes the delta since the last one of its series.
pub mod Increments
use statokgo.Prelude.{
  ℕ, leb, ◌==◌, Bytes, List, Option, none, some, length, lookup, insert, text_eq, if◌then◌else◌,
}
use statokgo.Float.{Float}
use statokgo.Event.{Event, MetricType}
use statokgo.Batch.{series_key}

abbrev pub default_max_total_series : ℕ
default_max_total_series = 2048

module _ {V : Type 0} (F : Float V) where
  -- The totals afterwards, and the counter event to batch; none is the result false.
  unfoldable pub apply_known :
      Event V → Bytes → V → List (Bytes × V) → List (Bytes × V) × Option (Event V)
  apply_known ev key prev totals =
      let totals' = insert text_eq key ev.amount totals in
      let delta = F.sub ev.amount prev in
      if F.lt ev.amount prev
      then (totals', none)
      else if F.le_zero delta
      then (totals', none)
      else (totals', some (record ev { typ = MetricType.counter; amount = delta }))

  unfoldable pub apply_total : Event V → List (Bytes × V) → ℕ → List (Bytes × V) × Option (Event V)
  unfolding apply_known series_key
  apply_total ev totals limit =
      let key = series_key ev.name ev.labels in
      let grown = insert text_eq key ev.amount totals in
      if limit == 0 then (totals, none) else elim (lookup text_eq key totals) [
        | none ↦ if leb limit (length totals) then (totals, none) else (grown, none)
        | some prev ↦ apply_known ev key prev totals
      ]
