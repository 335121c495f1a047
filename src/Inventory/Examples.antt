-- ===== src/Inventory/Examples.antt =====
-- A process of the database that restarts, and a database that was set up again.
use ovs_webui.Prelude.{◌≡◌, ◌⊎◌, ◌↔◌, refl, true, false, [], ◌∷◌}
use ovs_webui.Inventory.Registry.{Evidence, Decision, confirmed, continued, new, classify}
use ovs_webui.Inventory.Registry.Laws.{
  SameDatabase, OtherDatabase, Reviewed, classify-continued, classify-new,
}

abbrev seen : Evidence
seen = record {
  endpoint = 1;
  database = 2;
  schema = 3;
  root = 4;
  anchors = 5 ∷ [];
  peer = 6;
  boot = 7;
  file = record {
    available = true;
    server_has_file = true;
    device = 8;
    inode = 9;
    prior_matches = true;
  };
  observed_at = 1000000000;
  continuous = true;
}

abbrev known : Decision
known = record { generation = 1; state = confirmed; reason = "initial-discovery"; evidence = seen }

abbrev restarted : Evidence
restarted = record seen { peer = 10; observed_at = 2000000000; continuous = false }

abbrev set_up_again : Evidence
set_up_again = record seen { root = 14; anchors = 15 ∷ [] }

restart_test : classify known restarted false ≡ (continued, "process-restarted-database-continued")
unfolding classify ovs_webui.Inventory.Registry.classify_evidence
    ovs_webui.Inventory.Registry.classify_continuity ovs_webui.Inventory.Registry.classify_file
    ovs_webui.Inventory.Registry.classify_root
restart_test = refl

classify-continued_example :
    ((classify known restarted false).0 ≡ continued)
    ↔ (Reviewed known false × SameDatabase seen restarted)
classify-continued_example = classify-continued known restarted false

classify-new_example :
    ((classify known set_up_again false).0 ≡ new)
    ↔ ((known.generation ≡ 0) ⊎ (Reviewed known false × OtherDatabase seen set_up_again))
classify-new_example = classify-new known set_up_again false
