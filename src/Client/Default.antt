-- ===== src/Client/Default.antt =====
-- client.go, the client of the package: Init, Default, and the functions that call its methods.
use statokgo.Prelude.{false, Bytes, List, [], ◌∷◌, Option, none, some}
use statokgo.Float.{Float}
use statokgo.Config.Defaults.{UrlLibrary, Settings, Checked, failure, success, new_client}
use statokgo.Client.Producer.{Front, Given, Call, call}

-- what a client starts with
abbrev pub new_front : {V : Type 0} → Bytes → Front V
new_front workload = record {
  workload = workload;
  queue = [];
  dropped = 0;
  value_limiter = 0;
  stop_sending = false;
  done = false;
}

-- The client of the package, and the clients that Init has closed, the latest first.
pub record Package (V : Type 0) : Type 0 where
  pub default_client : Option (Front V)
  pub closed : List (Front V)

module _ {V : Type 0} where
  replace_client : Front V → Package V → Option (Front V) → Package V
  replace_client c g none = record g { default_client = some c }
  replace_client c g (some old) = record { default_client = some c; closed = old ∷ g.closed }

  init_with : Checked (Bytes × Settings) → Package V → Checked Settings × Package V
  unfolding replace_client
  init_with (failure e) g = (failure e, g)
  init_with (success (workload, settings)) g =
      (success settings, replace_client (new_front workload) g g.default_client)

  unfoldable pub init :
      {U : Type 0} → UrlLibrary U → Bytes → Settings → Package V → Checked Settings × Package V
  unfolding init_with new_client
  init url workload settings g = init_with (new_client url workload settings) g

  -- Count, CountUnique, Total, Value and ValueSparse of the package
  unfoldable pub default_call : Float V → Given V → Call V → Package V → Package V
  unfolding call
  default_call F given m g = elim g.default_client [
    | none ↦ g
    | some c ↦ record g { default_client = some (call F given m c) }
  ]
