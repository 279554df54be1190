-- ===== src/HostMetrics/Runtime/Usable.antt =====
-- cmd/statok-hostmetrics/config.go, resolveRuntimeConfig: what a configuration that is accepted has.
use statokgo.Prelude.{
  ℕ, ◌+◌, ◌||◌, Bool, true, false, not, Bytes, List, [], ◌∷◌, Option, none, some, ◌≡◌, refl, ap,
  ◌∙◌, arith, All, is_empty, map, if_ind, if◌then◌else◌,
}
use statokgo.Go.Strings.{trim_space}
use statokgo.Config.Defaults.{UrlLibrary}
use statokgo.Agent.Nginx.{normalize_endpoint, validate_endpoint}
use statokgo.HostMetrics.{
  Machine, MongoConfig, NginxConfig, FileConfig, no_instances, bad_endpoint, empty_uri, Result,
  error, ok,
}
use statokgo.HostMetrics.Instance.{UriLibrary, instance_label_from_uri}
use statokgo.HostMetrics.Runtime.{
  Instance, RuntimeConfig, resolve_workload, switched, add_instance, resolve_instances,
  resolve_mongo, resolve_nginx, instances_of, is_some, endpoint_of, with_nginx, with_mongo,
  with_workload, resolve_runtime_config,
}
use statokgo.HostMetrics.Runtime.Workload.{OnOk, OnOk-at, Obeys, IsName, resolve_workload-OnOk}

or_true : (b : Bool) → (b || true) ≡ true
or_true b = ground arith

module _ {U : Type 0} (url : UrlLibrary U) (host : U → Bytes) (lib : UriLibrary) where
  -- The URI is not blank and gives the label.
  abbrev pub IsLabelled : Instance → Type 0
  IsLabelled i = (is_empty i.uri ≡ false) × (instance_label_from_uri lib i.uri ≡ some i.label)

  abbrev pub uri_of : List Instance → List Bytes
  uri_of [] = []
  uri_of (i ∷ is) = i.uri ∷ uri_of is

  AreInstancesOf : List Bytes → List Instance → Type 0
  AreInstancesOf uris is = All IsLabelled is × (uri_of is ≡ map trim_space uris)

  resolve_instances-OnOk :
      (i : ℕ) (uris : List Bytes)
      → OnOk (AreInstancesOf uris) (resolve_instances url host lib i uris)
  unfolding resolve_instances AreInstancesOf
  resolve_instances-OnOk i [] = (tt, refl)
  resolve_instances-OnOk i (raw ∷ uris) =
      if_ind (OnOk (AreInstancesOf (raw ∷ uris))) (is_empty (trim_space raw)) (error (empty_uri i))
        _ (λ blank. tt)
        (λ full.
          go full (instance_label_from_uri lib (trim_space raw)) refl
            (resolve_instances url host lib (i + 1) uris) (resolve_instances-OnOk (i + 1) uris))
    where
      go :
          is_empty (trim_space raw) ≡ false
          → (label : Option Bytes) → instance_label_from_uri lib (trim_space raw) ≡ label
          → (rest : Result (List Instance)) → OnOk (AreInstancesOf uris) rest
          → OnOk
              (AreInstancesOf (raw ∷ uris))
              (add_instance url host lib (trim_space raw) label i rest)
      go full none e rest h = tt
      go full (some label) e (error x) h = tt
      go full (some label) e (ok is) (labelled, uris') =
          (((full, e), labelled), ap (trim_space raw ∷◌) uris')

  off-Obeys : (o : Option Bool) → switched false o ≡ true → Obeys o false
  unfolding switched
  off-Obeys none h = absurd (cc)
  off-Obeys (some true) h = absurd (cc)
  off-Obeys (some false) h = refl

  on-Obeys : (o : Option Bool) → switched false o ≡ false → Obeys o true
  unfolding switched
  on-Obeys none h = tt
  on-Obeys (some true) h = refl
  on-Obeys (some false) h = absurd (cc)

  free-Obeys :
      (o : Option Bool) → switched false o ≡ false → switched true o ≡ false → Obeys o false
  unfolding switched
  free-Obeys none h k = tt
  free-Obeys (some true) h k = absurd (cc)
  free-Obeys (some false) h k = refl

  -- The instances that run are all that are configured, and there is one at least; none runs if the
  -- integration is off.
  record AreWanted (cfg : MongoConfig) (mongo : Option (List Instance)) : Type 0 where
    labelled : All IsLabelled (instances_of url host lib mongo)
    all_of_them :
        uri_of (instances_of url host lib mongo)
        ≡ (if is_some url host lib mongo then map trim_space cfg.instances else [])
    some_of_them : is_empty (instances_of url host lib mongo) ≡ not (is_some url host lib mongo)
    obeyed : Obeys cfg.enabled (is_some url host lib mongo)

  uri_of-is_empty :
      (uris : List Bytes) (is : List Instance)
      → uri_of is ≡ map trim_space uris
      → is_empty uris ≡ false
      → is_empty is ≡ false
  unfolding is_empty
  uri_of-is_empty [] is e h = absurd (cc)
  uri_of-is_empty (u ∷ uris) [] e h = absurd (cc)
  uri_of-is_empty (u ∷ uris) (i ∷ is) e h = refl

  none_wanted : (cfg : MongoConfig) → Obeys cfg.enabled false → AreWanted cfg none
  unfolding instances_of is_some is_empty
  none_wanted cfg h = record { labelled = tt; all_of_them = refl; some_of_them = refl; obeyed = h }

  labelled_wanted :
      (cfg : MongoConfig) (is : List Instance)
      → is_empty cfg.instances ≡ false
      → Obeys cfg.enabled true
      → AreInstancesOf cfg.instances is
      → AreWanted cfg (some is)
  unfolding AreInstancesOf instances_of is_some
  labelled_wanted cfg is some_uri obeyed (labelled, uris) = record {
    labelled = labelled;
    all_of_them = uris;
    some_of_them = uri_of-is_empty cfg.instances is uris some_uri;
    obeyed = obeyed;
  }

  resolve_mongo-OnOk : (cfg : MongoConfig) → OnOk (AreWanted cfg) (resolve_mongo url host lib cfg)
  unfolding resolve_mongo
  resolve_mongo-OnOk cfg =
      if_ind (OnOk (AreWanted cfg)) (switched false cfg.enabled) (ok none) _
        (λ off. none_wanted cfg (off-Obeys cfg.enabled off))
        (λ on.
          if_ind (OnOk (AreWanted cfg)) (is_empty cfg.instances) _ _
            (λ nothing.
              if_ind (OnOk (AreWanted cfg)) (switched true cfg.enabled) (error no_instances)
                (ok none) (λ forced. tt) (λ free. none_wanted cfg (free-Obeys cfg.enabled on free)))
            (λ some_uri.
              go some_uri (on-Obeys cfg.enabled on) (resolve_instances url host lib 0 cfg.instances)
                (resolve_instances-OnOk 0 cfg.instances)))
    where
      go :
          is_empty cfg.instances ≡ false
          → Obeys cfg.enabled true
          → (r : Result (List Instance)) → OnOk (AreInstancesOf cfg.instances) r
          → OnOk (AreWanted cfg) (elim r [ error e ↦ error e | ok is ↦ ok (some is) ])
      go some_uri on (error e) h = tt
      go some_uri on (ok is) h = labelled_wanted cfg is some_uri on h

  IsEndpoint : Option Bytes → Type 0
  IsEndpoint nginx =
      (is_empty (trim_space (endpoint_of url host lib nginx))
        || validate_endpoint url host (endpoint_of url host lib nginx))
      ≡ true

  resolve_nginx-OnOk : (cfg : NginxConfig) → OnOk IsEndpoint (resolve_nginx url host lib cfg)
  unfolding resolve_nginx IsEndpoint endpoint_of
  resolve_nginx-OnOk cfg =
      let endpoint = normalize_endpoint url cfg.endpoint in
      if_ind (OnOk IsEndpoint) (switched false cfg.enabled) (ok none) _
        (λ off. unfold trim_space is_empty in refl)
        (λ on.
          if_ind (OnOk IsEndpoint) (is_empty (trim_space cfg.endpoint)) (ok (some cfg.endpoint)) _
            (λ blank. rw blank)
            (λ full.
              if_ind (OnOk IsEndpoint) (validate_endpoint url host endpoint) (ok (some endpoint))
                (error bad_endpoint)
                (λ valid. ap (is_empty (trim_space endpoint) ||◌) valid ∙ or_true _)
                (λ invalid. tt)))

  -- the instances of a configuration, which may be missing
  abbrev pub configured_uris : Option FileConfig → List Bytes
  configured_uris none = []
  configured_uris (some cfg) = cfg.mongo.instances

  abbrev pub configured_switch : Option FileConfig → Option Bool
  configured_switch none = none
  configured_switch (some cfg) = cfg.mongo.enabled

  -- What a configuration that is accepted has.
  pub record IsUsable (cfg : Option FileConfig) (out : RuntimeConfig) : Type 0 where
    pub workload : IsName out.workload
    pub labelled : All IsLabelled out.mongo_instances
    pub all_of_them :
        uri_of out.mongo_instances
        ≡ (if out.mongo_enabled then map trim_space (configured_uris cfg) else [])
    pub some_of_them : is_empty out.mongo_instances ≡ not out.mongo_enabled
    pub obeyed : Obeys (configured_switch cfg) out.mongo_enabled
    pub endpoint :
        (is_empty (trim_space out.nginx_endpoint) || validate_endpoint url host out.nginx_endpoint)
        ≡ true

  with_nginx-OnOk :
      (workload : Bytes) (cfg : FileConfig) (mongo : Option (List Instance))
      (nginx : Result (Option Bytes))
      → IsName workload
      → AreWanted cfg.mongo mongo
      → OnOk IsEndpoint nginx
      → OnOk (IsUsable (some cfg)) (with_nginx url host lib workload mongo nginx)
  unfolding with_nginx IsEndpoint
  with_nginx-OnOk workload cfg mongo (error e) w m n = tt
  with_nginx-OnOk workload cfg mongo (ok nginx) w m n = record {
    workload = w;
    labelled = m.labelled;
    all_of_them = m.all_of_them;
    some_of_them = m.some_of_them;
    obeyed = m.obeyed;
    endpoint = n;
  }

  with_mongo-OnOk :
      (workload : Bytes) (cfg : FileConfig) (mongo : Result (Option (List Instance)))
      → IsName workload
      → OnOk (AreWanted cfg.mongo) mongo
      → OnOk (IsUsable (some cfg)) (with_mongo url host lib workload cfg mongo)
  unfolding with_mongo
  with_mongo-OnOk workload cfg (error e) w m = tt
  with_mongo-OnOk workload cfg (ok mongo) w m =
      with_nginx-OnOk workload cfg mongo (resolve_nginx url host lib cfg.nginx) w m
        (resolve_nginx-OnOk cfg.nginx)

  with_workload-OnOk :
      (cfg : Option FileConfig) (workload : Result Bytes)
      → OnOk IsName workload
      → OnOk (IsUsable cfg) (with_workload url host lib cfg workload)
  unfolding with_workload
  with_workload-OnOk cfg (error e) w = tt
  with_workload-OnOk none (ok workload) w = record {
    workload = w;
    labelled = tt;
    all_of_them = refl;
    some_of_them = unfold is_empty in refl;
    obeyed = tt;
    endpoint = unfold trim_space is_empty in refl;
  }
  with_workload-OnOk (some cfg) (ok workload) w =
      with_mongo-OnOk workload cfg (resolve_mongo url host lib cfg.mongo) w
        (resolve_mongo-OnOk cfg.mongo)

  -- If resolveRuntimeConfig returns no error, whatever the flag, the file and the machine are: the
  -- workload is not blank and has no white space at its ends; MongoDB is on or off as the file says,
  -- if it says so; if it is on, every configured instance runs, at least one, each with a URI that is
  -- not blank and with the label that InstanceLabelFromURI gives it, and if it is off none runs; and
  -- the endpoint of nginx is blank or has passed ValidateEndpoint. Whatever else is configured is
  -- therefore answered with an error.
  pub resolve_runtime_config-IsUsable :
      (os : Machine) (cfg : Option FileConfig) (flag : Bytes) (flag_set : Bool)
      (out : RuntimeConfig)
      → resolve_runtime_config url host lib os cfg flag flag_set ≡ ok out
      → IsUsable cfg out
  unfolding resolve_runtime_config
  resolve_runtime_config-IsUsable os cfg flag flag_set out e =
      OnOk-at (IsUsable cfg) _ out
        (with_workload-OnOk cfg (resolve_workload os cfg flag flag_set)
          (resolve_workload-OnOk os cfg flag flag_set))
        e
