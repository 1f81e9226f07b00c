-- ===== src/Tests/Service.antt =====
-- The service and the packets that are due, on a run with a license call on both sides.
use vendor_specific_usbdrive.Base.{◌≡◌, some, [], ◌∷◌, arith}
use vendor_specific_usbdrive.Input.State.{Input}
use vendor_specific_usbdrive.Input.Session.{run}
use vendor_specific_usbdrive.Input.Session.Ready.{IsReady}
use vendor_specific_usbdrive.Input.Service.{Served, view, outputs_of}
use vendor_specific_usbdrive.Input.Service.Refines.{run-Served}
use vendor_specific_usbdrive.Input.Service.Due.{told, run-due}
use vendor_specific_usbdrive.Tests.Fixtures.{sample_env, ready_input, ready-IsReady}
use vendor_specific_usbdrive.Tests.Input.{signals}

run-Served_example :
    (t : Input) × (run sample_env signals ready_input ≡ some (tt, t))
    × Served signals (view ready_input) (view t)
    × IsReady t
run-Served_example = run-Served sample_env signals ready_input ready-IsReady (omega arith)

-- The second transfer comes while the interface is disabled, and fails besides.
run-due_example :
    (t : Input) × (run sample_env signals ready_input ≡ some (tt, t))
    × (told (outputs_of t.log) ≡ (1002, 6) ∷ (1000, 18) ∷ [])
run-due_example = run-due sample_env signals ready_input ready-IsReady (omega arith)
