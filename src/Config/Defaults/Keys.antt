-- ===== src/Config/Defaults/Keys.antt =====
-- config.go, applyDefaults: the API key in the settings that NewClient accepts.
use statokgo.Prelude.{
  Bool, List, ◌∷◌, ◌⊎◌, inl, inr, All, Bool-cases, sym, ◌∙◌, codes, ◌&&◌, true, false, not, Bytes,
  [], Option, none, some, ◌≡◌, ◌≢◌, refl, subst, if_ind, arith, if◌then◌else◌, is_empty, is_none,
}
use statokgo.Go.Strings.{trim_space, equal_fold}
use statokgo.Config.{valid_workload}
use statokgo.Transport.{HttpTransport}
use statokgo.Config.Defaults.{
  UrlLibrary, AnyTransport, http_transport, custom, Settings, Checked, failure, success, has_value,
  has_authorization_header, check_http, check_transport, apply_defaults, started, new_client,
  default_endpoint, default_transport,
}

abbrev pub is_authorization : Bytes × List Bytes → Bool
is_authorization entry = equal_fold entry.0 (codes "Authorization")

-- At most one key of the header is "Authorization" up to case.
abbrev pub HasOneAuthorization : List (Bytes × List Bytes) → Type 0
HasOneAuthorization [] = Unit {0}
HasOneAuthorization (entry ∷ rest) =
    ((is_authorization entry ≡ false) ⊎ All (λ e. is_authorization e ≡ false) rest)
    × HasOneAuthorization rest

-- the same of the transport of the settings, if it is an HTTPTransport
abbrev pub IsUnambiguous : Option AnyTransport → Type 0
IsUnambiguous none = Unit {0}
IsUnambiguous (some custom) = Unit {0}
IsUnambiguous (some (http_transport t)) = HasOneAuthorization t.header

-- The entry gives no authorization: it has another key, or nothing but white space for its values.
abbrev pub IsSilent : Bytes × List Bytes → Type 0
IsSilent entry =
    (is_authorization entry ≡ false) ⊎ All (λ v. is_empty (trim_space v) ≡ true) entry.1

-- An HTTP transport has a key, the key of the settings, and no authorization in its header.
abbrev pub HasOneKey : Settings → Option AnyTransport → Type 0
HasOneKey c none = Unit {0}
HasOneKey c (some custom) = Unit {0}
HasOneKey c (some (http_transport t)) =
    (t.api_key ≢ []) × (c.api_key ≡ t.api_key) × All IsSilent t.header

has_value-blank :
    (values : List Bytes)
    → has_value values ≡ false
    → All (λ v. is_empty (trim_space v) ≡ true) values
unfolding has_value
has_value-blank [] h = tt
has_value-blank (v ∷ vs) h = elim (Bool-cases (is_empty (trim_space v))) [
  | inl blank ↦ (blank, has_value-blank vs (sym (rw blank refl) ∙ h))
  | inr full ↦ absurd (ground arith)
]

others-IsSilent :
    (header : List (Bytes × List Bytes))
    → All (λ e. is_authorization e ≡ false) header
    → All IsSilent header
others-IsSilent [] h = tt
others-IsSilent (e ∷ es) (h, hs) = (inl h, others-IsSilent es hs)

-- If hasAuthorizationHeader finds nothing, then there is nothing.
has_authorization_header-IsSilent :
    (header : List (Bytes × List Bytes))
    → HasOneAuthorization header
    → has_authorization_header header ≡ false
    → All IsSilent header
unfolding has_authorization_header
has_authorization_header-IsSilent [] single h = tt
has_authorization_header-IsSilent ((k, values) ∷ rest) (inl other, single) h =
    (inl other, has_authorization_header-IsSilent rest single (sym (rw other refl) ∙ h))
has_authorization_header-IsSilent ((k, values) ∷ rest) (inr alone, single) h =
    elim (Bool-cases (is_authorization (k, values))) [
      | inl this ↦
          (inr (has_value-blank values (sym (rw this refl) ∙ h)), others-IsSilent rest alone)
      | inr other ↦ (inl other, others-IsSilent rest alone)
    ]

abbrev OnSuccess : {A : Type 0} → (A → Type 0) → Checked A → Type 0
OnSuccess P (failure e) = Unit {0}
OnSuccess P (success a) = P a

check_http-HasOneKey :
    (c : Settings) (t : HttpTransport)
    → HasOneAuthorization t.header
    → OnSuccess (λ s. HasOneKey s s.transport) (check_http c t)
unfolding check_http
check_http-HasOneKey c t single =
    let key = if not (is_empty c.api_key) && is_empty t.api_key then c.api_key else t.api_key in
    if_ind (OnSuccess (λ s. HasOneKey s s.transport))
      (has_authorization_header t.header && not (is_empty key)) _ _ (λ conflict. tt)
      (λ no_conflict.
        if_ind (OnSuccess (λ s. HasOneKey s s.transport)) (is_empty key) _ _ (λ missing. tt)
          (λ given.
            (ground arith, refl, has_authorization_header-IsSilent t.header single (ground arith))))

check_transport-HasOneKey :
    (c : Settings) (t : Option AnyTransport)
    → c.transport ≡ t
    → IsUnambiguous t
    → OnSuccess (λ s. HasOneKey s s.transport) (check_transport c t)
unfolding check_transport
check_transport-HasOneKey c none e single = rw e tt
check_transport-HasOneKey c (some custom) e single = rw e tt
check_transport-HasOneKey c (some (http_transport t)) e single = check_http-HasOneKey c t single

started-HasOneKey :
    (workload : Bytes) (r : Checked Settings)
    → valid_workload workload ≡ true
    → OnSuccess (λ s. HasOneKey s s.transport) r
    → OnSuccess
        (λ r. (valid_workload r.0 ≡ true) × (r.1.transport ≢ none) × HasOneKey r.1 r.1.transport)
        (started workload r)
unfolding started
started-HasOneKey workload (failure e) valid h = tt
started-HasOneKey workload (success c) valid h =
    if_ind
      (OnSuccess (λ (r : Bytes × Settings).
        (valid_workload r.0 ≡ true) × (r.1.transport ≢ none) × HasOneKey r.1 r.1.transport))
      (is_none c.transport) _ _ (λ absent. tt) (λ present. (valid, ground arith, h))

default_transport-IsUnambiguous :
    {U : Type 0} (url : UrlLibrary U) (endpoint : Bytes) (c : Settings)
    → IsUnambiguous c.transport
    → IsUnambiguous (default_transport url endpoint c)
unfolding default_transport
default_transport-IsUnambiguous url endpoint c single =
    if_ind IsUnambiguous (is_none c.transport && not (is_empty endpoint)) _ c.transport
      (λ given. tt) (λ kept. single)

new_client-OnSuccess :
    {U : Type 0} (url : UrlLibrary U) (raw : Bytes) (c : Settings)
    → IsUnambiguous c.transport
    → OnSuccess
        (λ r. (valid_workload r.0 ≡ true) × (r.1.transport ≢ none) × HasOneKey r.1 r.1.transport)
        (new_client url raw c)
unfolding new_client apply_defaults
new_client-OnSuccess url raw c single =
    if_ind
      (OnSuccess (λ (r : Bytes × Settings).
        (valid_workload r.0 ≡ true) × (r.1.transport ≢ none) × HasOneKey r.1 r.1.transport))
      (not (valid_workload (trim_space raw))) _ _ (λ invalid. tt)
      (λ valid. started-HasOneKey (trim_space raw) _ (ground arith) (
        check_transport-HasOneKey
          (record c {
            endpoint = default_endpoint url c;
            transport = default_transport url (default_endpoint url c) c;
          })
          (default_transport url (default_endpoint url c) c) refl
          (default_transport-IsUnambiguous url (default_endpoint url c) c single)))

-- What NewClient accepts has a valid workload and a transport, and if that is an HTTPTransport,
-- then it has an API key, the one of the settings, and its header gives no authorization beside it:
-- every value of a key that is "Authorization" up to case is blank. The header that the caller gives
-- has at most one such key.
pub new_client-HasOneKey :
    {U : Type 0} (url : UrlLibrary U) (raw : Bytes) (c : Settings) (workload : Bytes)
    (c' : Settings)
    → IsUnambiguous c.transport
    → new_client url raw c ≡ success (workload, c')
    → (valid_workload workload ≡ true) × (c'.transport ≢ none) × HasOneKey c' c'.transport
new_client-HasOneKey url raw c workload c' single e =
    subst
      (OnSuccess (λ (r : Bytes × Settings).
        (valid_workload r.0 ≡ true) × (r.1.transport ≢ none) × HasOneKey r.1 r.1.transport))
      e (new_client-OnSuccess url raw c single)
