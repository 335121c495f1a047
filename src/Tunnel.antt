-- ===== src/Tunnel.antt =====
-- internal/tunnel/config.go: the configuration of a native static tunnel. What the source takes
-- from Go's libraries (addresses, decimal numbers, the length of a string) is the parameter `Go`.
pub mod Laws
mod Examples
use Prim.Native.String.{◌++◌ as str_append}
use ovs_webui.Prelude.{
  ℕ, ◌+◌, Bool, true, false, not, ◌&&◌, ◌||◌, String, str_eq, List, [], ◌∷◌, ◌++◌, Option, none,
  some, leb, ltb, if◌then◌else◌, any, every, find, delete, assign, is_some, length,
}

pub record Configuration : Type 0 where
  pub kind : String
  pub options : List (String × String)

-- An option that is given a value, or `none` where the request removes it.
pub record Request : Type 0 where
  pub kind : String
  pub options : List (String × Option String)

pub data Code : Type 0 where
  type_unsupported dynamic_read_only advanced_options_read_only : Code
  static_remote_ip_required gre_ipv4_required local_ip_invalid : Code
  key_out_of_range destination_port_invalid : Code
  invalid_option options_unknown : Code

pub data Result : Type 0 where
  ok : Configuration → Result
  err : Code → Result

-- netip.Addr, strconv and len.
pub record Go : Type 1 where
  pub Address : Type 0
  pub parse_address : String → Option Address
  pub zone : Address → String
  pub print_address : Address → String
  pub is4 : Address → Bool
  pub is4_in6 : Address → Bool
  pub is_global_unicast : Address → Bool
  pub is_loopback : Address → Bool
  pub is_link_local_unicast : Address → Bool
  pub same_address : Address → Address → Bool
  pub parse_uint : String → Option ℕ
  pub format_uint : ℕ → String
  pub size : String → ℕ

-- A native value: a string, or anything else.
pub data Raw : Type 0 where
  text : String → Raw
  other : Raw

-- The error, and the configuration, where an empty one is `none`.
abbrev pub Decoded : Type 0
Decoded = Option Code × Option Configuration

abbrev decoded : String → String → Option (List (String × String)) → Option (List (String × String))
decoded k s none = none
decoded k s (some m) = some ((k, s) ∷ m)

abbrev pub contains : String → List String → Bool
contains s = any (λ x. str_eq x s)

abbrev pub types : List String
types = "vxlan" ∷ "geneve" ∷ "gre" ∷ []

abbrev pub keys : List String
keys = "remote_ip" ∷ "local_ip" ∷ "key" ∷ "dst_port" ∷ []

abbrev pub dynamic_keys : List String
dynamic_keys = "remote_ip" ∷ "local_ip" ∷ "key" ∷ "in_key" ∷ "out_key" ∷ []

-- m[k], where a missing key reads as ""
abbrev pub value_at : String → List (String × String) → String
value_at k m = elim (find k m) [ none ↦ "" | some v ↦ v ]

-- a + "/" + b
abbrev joined : String → String → String
joined a b = str_append a (str_append "/" b)

is_dynamic : String × String → Bool
is_dynamic (k, v) = str_eq v "flow" && contains k dynamic_keys

module _ (g : Go) where
  -- The address of an endpoint, if it is one.
  is_static : String → g.Address → Bool
  is_static s a =
      str_eq (g.zone a) ""
      && not (g.is4_in6 a)
      && str_eq (g.print_address a) s
      && g.is_global_unicast a
      && not (g.is_loopback a)
      && not (g.is_link_local_unicast a)

  checked_address : String → Option g.Address → Option g.Address
  checked_address s none = none
  checked_address s (some a) = if is_static s a then some a else none

  -- `endpoint`
  unfoldable pub endpoint : String → Option g.Address
  unfolding checked_address is_static
  endpoint s = checked_address s (g.parse_address s)

  in_bounds : String → ℕ → ℕ → Option ℕ → Bool
  in_bounds s lo hi none = false
  in_bounds s lo hi (some n) = leb lo n && leb n hi && str_eq (g.format_uint n) s

  -- `integer`
  unfoldable pub integer : String → ℕ → ℕ → Bool
  unfolding in_bounds
  integer s lo hi = in_bounds s lo hi (g.parse_uint s)

  local_ok : g.Address → Option g.Address → Bool
  local_ok remote none = false
  local_ok remote (some a) =
      (if g.is4 a then g.is4 remote else not (g.is4 remote)) && not (g.same_address a remote)

  -- The three optional values.
  unfoldable pub local_admitted : g.Address → Option String → Bool
  unfolding local_ok
  local_admitted remote none = true
  local_admitted remote (some s) = local_ok remote (endpoint s)

  unfoldable pub key_admitted : String → Option String → Bool
  key_admitted kind none = true
  key_admitted kind (some s) = integer s 0 (if str_eq kind "gre" then 4294967295 else 16777215)

  unfoldable pub port_admitted : String → Option String → Bool
  port_admitted kind none = true
  port_admitted kind (some s) = not (str_eq kind "gre") && integer s 1 65535

  -- The checks once the remote address is known.
  unfoldable pub validate_remote : Configuration → Option g.Address → Option Code
  validate_remote c none = some static_remote_ip_required
  validate_remote c (some remote) =
      if str_eq c.kind "gre" && not (g.is4 remote)
      then some gre_ipv4_required
      else if not (local_admitted remote (find "local_ip" c.options))
      then some local_ip_invalid
      else if not (key_admitted c.kind (find "key" c.options))
      then some key_out_of_range
      else if not (port_admitted c.kind (find "dst_port" c.options))
      then some destination_port_invalid
      else none

  -- `Validate`; `none` is the nil error.
  unfoldable pub validate : Configuration → Option Code
  unfolding is_dynamic
  validate c =
      if not (contains c.kind types)
      then some type_unsupported
      else if any is_dynamic c.options
      then some dynamic_read_only
      else if not (every (λ o. contains o.0 keys) c.options)
      then some advanced_options_read_only
      else validate_remote c (endpoint (value_at "remote_ip" c.options))

  set_option : String → Option String → List (String × String) → List (String × String)
  set_option k none m = delete k m
  set_option k (some v) m = assign k v m

  -- The loop of `Merge` over the options of the request.
  unfoldable pub merge_options :
      List (String × Option String) → List (String × String) → Option (List (String × String))
  unfolding set_option
  merge_options [] m = some m
  merge_options ((k, v) ∷ r) m =
      let rest = merge_options r (set_option k v m) in if contains k keys then rest else none

  verdict : Configuration → Option Code → Result
  verdict c none = ok c
  verdict c (some e) = err e

  merged : String → Option (List (String × String)) → Result
  unfolding verdict
  merged kind none = err invalid_option
  merged kind (some m) =
      let c : Configuration = record { kind = kind; options = m } in verdict c (validate c)

  -- `Merge`
  unfoldable pub merge : Configuration → Request → Result
  unfolding merged
  merge before r =
      merged (if str_eq r.kind "" then before.kind else r.kind)
        (merge_options r.options before.options)

  decode_options : List (String × Raw) → Option (List (String × String))
  decode_options [] = some []
  decode_options ((k, other) ∷ m) = none
  decode_options ((k, text s) ∷ m) =
      let rest = decode_options m in
      if ltb 128 (g.size k) || ltb 4096 (g.size s) then none else decoded k s rest

  decode_bounded : String → Bool → Option (List (String × String)) → Decoded
  decode_bounded kind true o = (some options_unknown, some (record { kind = kind; options = [] }))
  decode_bounded kind false none = (some options_unknown, none)
  decode_bounded kind false (some m) =
      let c : Configuration = record { kind = kind; options = m } in (validate c, some c)

  -- `Decode`: a value that is no map is `none`.
  unfoldable pub decode : String → Option (List (String × Raw)) → Decoded
  unfolding decode_options decode_bounded
  decode kind none = decode_bounded kind true none
  decode kind (some m) = decode_bounded kind (ltb 128 (length m)) (decode_options m)

  identity_of : Configuration → Option Code → Option Code × String
  identity_of c (some e) = (some e, "")
  identity_of c none =
      let key = value_at "key" c.options in
      (
        none,
        joined c.kind (
            joined (value_at "remote_ip" c.options)
              (joined (value_at "local_ip" c.options) (if str_eq key "" then "0" else key))),
      )

  -- `NativeIdentity`
  unfoldable pub native_identity : Configuration → Option Code × String
  unfolding identity_of
  native_identity c = identity_of c (validate c)
