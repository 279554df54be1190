-- ===== src/HostMetrics/Instance.antt =====
-- internal/integrations/instance.go: the label of an instance, from its URI.
use statokgo.Prelude.{
  ℕ, ◌+◌, ◌==◌, Bytes, [], ◌∷◌, ◌++◌, Option, none, some, if◌then◌else◌, is_empty, codes,
}
use statokgo.Go.Strings.{trim_space, has_prefix, trim_prefix, contains, before_byte}

-- url.Parse with the field Host, and the host of net.SplitHostPort; none is an error.
pub record UriLibrary : Type 0 where
  pub parse_host : Bytes → Option Bytes
  pub split_host_port : Bytes → Option Bytes

-- strings.Count of one byte
unfoldable pub count_byte : ℕ → Bytes → ℕ
count_byte c [] = 0
count_byte c (b ∷ s) = (if b == c then 1 else 0) + count_byte c s

-- strings.TrimSuffix of one byte
unfoldable pub trim_last : ℕ → Bytes → Bytes
trim_last c [] = []
trim_last c (b ∷ []) = if b == c then [] else b ∷ []
trim_last c (b ∷ d ∷ s) = b ∷ trim_last c (d ∷ s)

-- parts[0] of a host with one colon
before_colon : Bytes → Bytes
unfolding before_byte
before_colon host = elim (before_byte b':' host) [ none ↦ host | some h ↦ h ]

module _ (lib : UriLibrary) where
  unfoldable pub hostname_from_host : Bytes → Bytes
  unfolding has_prefix trim_prefix trim_last count_byte before_colon is_empty
  hostname_from_host host =
      let bare = trim_last b']' (trim_prefix host (codes "[")) in
      let one_colon = if count_byte b':' host == 1 then before_colon host else host in
      if is_empty host then host else elim (lib.split_host_port host) [
        | some h ↦ h
        | none ↦ if has_prefix host (codes "[") then bare else one_colon
      ]

  first_host : Bytes → Bytes
  unfolding before_byte trim_space
  first_host host = elim (before_byte b',' host) [ none ↦ host | some h ↦ trim_space h ]

  label_of_host : Bytes → Option Bytes
  unfolding hostname_from_host first_host trim_space is_empty
  label_of_host host =
      let name = trim_space (hostname_from_host (first_host host)) in
      if is_empty host then none else if is_empty name then none else some name

  -- InstanceLabelFromURI; none is an error
  unfoldable pub instance_label_from_uri : Bytes → Option Bytes
  unfolding label_of_host trim_space contains is_empty
  instance_label_from_uri uri =
      let u = trim_space uri in
      let full = if contains u (codes "://") then u else codes "scheme://" ++ u in
      if is_empty u
      then none
      else elim (lib.parse_host full) [ none ↦ none | some host ↦ label_of_host (trim_space host) ]
