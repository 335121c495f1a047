-- ===== src/Tunnel/Examples.antt =====
-- A merge of tunnel options, over addresses and numbers that stand for themselves.
use ovs_webui.Prelude.{
  length, ◌≤◌, find, ◌≡◌, refl, true, false, String, str_eq, List, [], ◌∷◌, Option, none, some,
  if◌then◌else◌,
}
use ovs_webui.Tunnel.{decode, Configuration, Request, Go, ok, merge, validate}
use ovs_webui.Tunnel.Laws.{merge-preserves, merge-applies, decode-exact, raw_of}

-- Every string is a unicast address of version 4, and "42" is the only number.
abbrev go : Go
go = record {
  Address = String;
  parse_address = λ s. some s;
  zone = λ a. "";
  print_address = λ a. a;
  is4 = λ a. true;
  is4_in6 = λ a. false;
  is_global_unicast = λ a. true;
  is_loopback = λ a. str_eq a "127.0.0.1";
  is_link_local_unicast = λ a. false;
  same_address = λ a b. str_eq a b;
  parse_uint = λ s. if str_eq s "42" then some 42 else none;
  format_uint = λ n. "42";
  size = λ s. 1;
}

abbrev before : Configuration
before = record {
  kind = "vxlan";
  options = ("remote_ip", "192.0.2.1") ∷ ("local_ip", "192.0.2.2") ∷ [];
}

abbrev after : Configuration
after = record { kind = "vxlan"; options = ("key", "42") ∷ ("remote_ip", "192.0.2.1") ∷ [] }

abbrev edits : List (String × Option String)
edits = ("local_ip", none) ∷ ("key", some "42") ∷ []

merge-preserves_example :
    (validate go after ≡ none)
    × (after.kind ≡ "vxlan")
    × (find "remote_ip" after.options ≡ find "remote_ip" before.options)
unfolding merge ovs_webui.Tunnel.merge_options validate ovs_webui.Tunnel.validate_remote
    ovs_webui.Tunnel.endpoint ovs_webui.Tunnel.local_admitted ovs_webui.Tunnel.key_admitted
    ovs_webui.Tunnel.integer ovs_webui.Tunnel.port_admitted
merge-preserves_example =
    merge-preserves go before (record { kind = ""; options = edits }) after "remote_ip" refl refl

merge-applies_example : find "key" after.options ≡ some "42"
unfolding merge ovs_webui.Tunnel.merge_options validate ovs_webui.Tunnel.validate_remote
    ovs_webui.Tunnel.endpoint ovs_webui.Tunnel.local_admitted ovs_webui.Tunnel.key_admitted
    ovs_webui.Tunnel.integer ovs_webui.Tunnel.port_admitted
merge-applies_example =
    merge-applies go before "" "key" (some "42") (("local_ip", none) ∷ []) [] after refl refl

decode-exact_example :
    (raw_of after.options ≡ raw_of after.options)
    × (length (raw_of after.options) ≤ 128)
    × (after.kind ≡ "vxlan")
    × (validate go after ≡ none)
unfolding decode validate ovs_webui.Tunnel.validate_remote ovs_webui.Tunnel.endpoint
    ovs_webui.Tunnel.local_admitted ovs_webui.Tunnel.key_admitted ovs_webui.Tunnel.integer
    ovs_webui.Tunnel.port_admitted
decode-exact_example = decode-exact go "vxlan" (raw_of after.options) after refl
