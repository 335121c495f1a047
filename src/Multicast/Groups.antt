-- ===== src/Multicast/Groups.antt =====
-- internal/multicast/groups.go: the groups that a Bridge has learned, from the reply of Open vSwitch.
-- Go's strings, strconv, utf8 and netip are the parameter `Go`. The source's key of a group is a text,
-- of parts that a slash separates; here two keys are the same if their parts are.
pub mod Rows
pub mod Laws
mod Examples
use ovs_webui.Prelude.{
  ℕ, Bool, true, false, not, ◌&&◌, ◌||◌, String, str_eq, List, [], ◌∷◌, ◌++◌, Option, none, some,
  leb, ltb, ◌==◌, if◌then◌else◌, length, any,
}

pub record Group : Type 0 where
  pub port : ℕ
  pub vlan : ℕ
  pub protocol : String
  pub address : String
  pub router : Bool
  pub age : ℕ

-- netip.Addr, by what is asked of it.
pub record Address : Type 0 where
  pub zone : String
  pub is_multicast : Bool
  pub is_4 : Bool
  pub text : String

pub record Go : Type 0 where
  pub valid : List ℕ → Bool
  pub trimmed_lines : List ℕ → List String
  pub fields : String → List String
  pub join : List String → String
  pub parse_uint : String → ℕ → Option ℕ
  pub format_uint : ℕ → String
  pub parse_address : String → Option Address

abbrev pub max_group_wire : ℕ
max_group_wire = 65536

abbrev pub max_groups : ℕ
max_groups = 256

pub is_control : ℕ → Bool
is_control c = leb 127 c || (ltb c 32 && not (c == b'\n') && not (c == b'\t'))

abbrev pub is_igmp : String → Bool
is_igmp p = str_eq p "IGMPv1" || str_eq p "IGMPv2" || str_eq p "IGMPv3"

abbrev pub is_mld : String → Bool
is_mld p = str_eq p "MLDv1" || str_eq p "MLDv2"

-- Whether both have the same key
pub same_group : Group → Group → Bool
same_group g h =
    g.port == h.port
    && g.vlan == h.vlan
    && str_eq g.address h.address
    && (if g.router then h.router else not h.router)

unfoldable pub with_rows :
    Option (List Group) → (List Group → Option (List Group)) → Option (List Group)
with_rows none f = none
with_rows (some x) f = f x

unfoldable pub add_group : List Group → Option Group → Option (List Group)
unfolding same_group
add_group out none = none
add_group out (some g) = if any (same_group g) out then none else some (out ++ (g ∷ []))

module _ (go : Go) where
  -- The number, if it is written the way it is printed and passes.
  pub exact : String → (ℕ → Bool) → Option ℕ → Option ℕ
  exact text passes none = none
  exact text passes (some n) = if passes n && str_eq (go.format_uint n) text then some n else none

  unfoldable pub read_port : String → Option ℕ
  unfolding exact
  read_port text =
      if str_eq text "LOCAL"
      then some 65534
      else exact text (λ n. not (n == 0) && ltb n 65280) (go.parse_uint text 16)

  unfoldable pub read_vlan : String → Option ℕ
  unfolding exact
  read_vlan text = exact text (λ n. leb n 4094) (go.parse_uint text 12)

  unfoldable pub read_age : String → Option ℕ
  unfolding exact
  read_age text = exact text (λ _. true) (go.parse_uint text 32)

  pub multicast_address : String → Option Address → Option String
  multicast_address protocol none = none
  multicast_address protocol (some ip) =
      if not (str_eq ip.zone "")
        || not ip.is_multicast
        || not (if is_igmp protocol then ip.is_4 else not ip.is_4)
      then none
      else some ip.text

  -- The address, which is empty for a router
  unfoldable pub read_address : String → String → Option String
  unfolding multicast_address
  read_address protocol text =
      if str_eq text "querier"
      then if str_eq protocol "UNKNOWN" then some "" else none
      else if is_igmp protocol || is_mld protocol
      then multicast_address protocol (go.parse_address text)
      else none

  pub built : String → String → Option ℕ → Option ℕ → Option ℕ → Option String → Option Group
  built protocol text (some port) (some vlan) (some age) (some address) = some (record {
    port = port;
    vlan = vlan;
    protocol = protocol;
    address = address;
    router = str_eq text "querier";
    age = age;
  })
  built protocol text _ _ _ _ = none

  unfoldable pub read_fields : List String → Option Group
  unfolding built
  read_fields (port ∷ vlan ∷ protocol ∷ text ∷ age ∷ []) =
      built protocol text (read_port port) (read_vlan vlan) (read_age age)
        (read_address protocol text)
  read_fields _ = none

  unfoldable pub decode_rows : List String → List Group → Option (List Group)
  unfolding with_rows
  decode_rows [] out = some out
  decode_rows (l ∷ ls) out =
      if leb max_groups (length out)
      then none
      else with_rows (add_group out (read_fields (go.fields l))) (λ next. decode_rows ls next)

  unfoldable pub decode_lines : List String → Option (List Group)
  unfolding decode_rows
  decode_lines [] = none
  decode_lines (header ∷ rows) =
      if str_eq (go.join (go.fields header)) "port VLAN protocol GROUP Age"
      then decode_rows rows []
      else none

  unfoldable pub is_wire : List ℕ → Bool
  unfolding is_control
  is_wire bytes =
      leb 1 (length bytes)
      && leb (length bytes) max_group_wire
      && go.valid bytes
      && not (any is_control bytes)

  -- `DecodeGroups`
  unfoldable pub decode_groups : List ℕ → Option (List Group)
  unfolding decode_lines is_wire
  decode_groups bytes = if is_wire bytes then decode_lines (go.trimmed_lines bytes) else none
