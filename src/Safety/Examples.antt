-- ===== src/Safety/Examples.antt =====
-- Deadlines at concrete clock readings.
use ovs_webui.Prelude.{◌+◌, ◌<◌, ◌≡◌, ◌↔◌, false, arith}
use ovs_webui.Prelude.Int.{pos}
use ovs_webui.Safety.{Clock, Deadline, new_deadline, expired, confirmation_window}
use ovs_webui.Safety.Expiry.{new_deadline_window, reading}

abbrev window : Deadline
window = record { boot = 7; start = pos 1000; end = pos 1500; started = 90; wall = 590 }

abbrev inside : Clock
inside = record { boot = 7; ns = pos 1200; wall = 300 }

new_deadline_window_example :
    (expired
        (new_deadline (reading 7 1000 90) confirmation_window)
        (reading 7 (1000 + 30) (90 + 40))
      ≡ false)
    ↔ ((30 < confirmation_window) × (40 < confirmation_window))
new_deadline_window_example =
    new_deadline_window 7 1000 90 confirmation_window 30 40 (omega arith) (omega arith)
