-- ===== src/Batch/Identity.antt =====
-- batch_builder.go: the batch ID of the payload that the builder makes.
use statokgo.Prelude.{ℕ, Bytes, List, [], ◌∷◌, Option, none, some, ◌≡◌, refl, ◌∙◌, arith}
use statokgo.Float.{Float}
use statokgo.Event.{Event, MetricType}
use statokgo.Batch.{
  BatchBuilder, Payload, Search, found, missing, panic, add, add_typed, add_all, add_counter,
  store_counter, append_counter, add_unique, build, new_batch_builder,
}

module _ {V : Type 0} where
  append_counter-batch_id :
      (b : BatchBuilder V) (h : ℕ) (e : Event V)
      → (append_counter b h e).payload.batch_id ≡ b.payload.batch_id
  unfolding append_counter
  append_counter-batch_id b h e = ground arith

  add_unique-batch_id :
      (b : BatchBuilder V) (e : Event V) → (add_unique b e).payload.batch_id ≡ b.payload.batch_id
  unfolding add_unique
  add_unique-batch_id b e = ground arith

module _ {V : Type 0} (F : Float V) (series_hash : Bytes → List Bytes → ℕ) where
  store_counter-batch_id :
      (b b' : BatchBuilder V) (e : Event V) (s : Search)
      → store_counter F series_hash b e s ≡ some b'
      → b'.payload.batch_id ≡ b.payload.batch_id
  unfolding store_counter
  store_counter-batch_id b b' e panic h = cc
  store_counter-batch_id b b' e missing h =
      cc (append_counter-batch_id b (series_hash e.name e.labels) e)
  store_counter-batch_id b b' e (found i) h = ground arith

  add_typed-batch_id :
      (t : MetricType) (b b' : BatchBuilder V) (e : Event V)
      → add_typed F series_hash t b e ≡ some b'
      → b'.payload.batch_id ≡ b.payload.batch_id
  unfolding add_typed add_counter
  add_typed-batch_id MetricType.counter b b' e h = store_counter-batch_id b b' e _ h
  add_typed-batch_id MetricType.value b b' e h = ground arith
  add_typed-batch_id MetricType.unique b b' e h = cc (add_unique-batch_id b e)
  add_typed-batch_id MetricType.total b b' e h = cc
  add_typed-batch_id MetricType.unset b b' e h = cc

  add_all-batch_id :
      (b b' : BatchBuilder V) (es : List (Event V))
      → add_all F series_hash b es ≡ some b'
      → b'.payload.batch_id ≡ b.payload.batch_id
  unfolding add_all add
  add_all-batch_id b b' [] h = cc
  add_all-batch_id b b' (e ∷ es) h =
      go (add_typed F series_hash e.typ b e) refl h (λ c. add_all-batch_id c b' es)
    where
      go :
          (o : Option (BatchBuilder V))
          → add_typed F series_hash e.typ b e ≡ o
          → elim o [ none ↦ none | some c ↦ add_all F series_hash c es ] ≡ some b'
          → ((c : BatchBuilder V)
              → add_all F series_hash c es ≡ some b'
              → b'.payload.batch_id ≡ c.payload.batch_id)
          → b'.payload.batch_id ≡ b.payload.batch_id
      go none at k ih = cc
      go (some c) at k ih = ih c k ∙ add_typed-batch_id e.typ b c e at

-- A payload that is built has no batch ID yet.
pub build-batch_id :
    {V : Type 0} (F : Float V) (series_hash : Bytes → List Bytes → ℕ) (es : List (Event V))
    (b : BatchBuilder V) (p : Payload V)
    → add_all F series_hash new_batch_builder es ≡ some b
    → build b ≡ some p
    → p.batch_id ≡ []
unfolding build new_batch_builder
build-batch_id F series_hash es b p h k =
    let named = add_all-batch_id F series_hash _ b es h in ground (arith, named)
