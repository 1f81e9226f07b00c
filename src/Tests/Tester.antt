-- ===== src/Tests/Tester.antt =====
-- The tester with a service that does not open and one that does, on the clients of Tests/Client.
use vendor_specific_usbdrive.Base.{
  ℕ, ◌+◌, ◌≡◌, refl, true, none, some, [], ◌∷◌, ◌==◌, if◌then◌else◌, length, pure, ◌>>=◌,
}
use vendor_specific_usbdrive.Kit.{success, error}
use vendor_specific_usbdrive.Client.State.{update}
use vendor_specific_usbdrive.Client.Licensing.{external_method}
use vendor_specific_usbdrive.Client.Licensing.Laws.{with_enabled}
use vendor_specific_usbdrive.Tester.{
  printed, searching, opened_service, input_line, output_line, tried, iterator_released, World,
  TesterEnv, main,
}
use vendor_specific_usbdrive.Tester.Laws.{
  releases, fails, opens, iterators, KeepsOutput, main-releases,
}
use vendor_specific_usbdrive.Tester.Enables.{scalar_arguments, main-enables}
use vendor_specific_usbdrive.Tests.Fixtures.{ready_ivars, ready_input}
use vendor_specific_usbdrive.Tests.Client.{sample_client_env, sample-ChecksArguments, sample_system}

-- Service 90 has client 3; service 91 does not open, and every call fails.
abbrev delivering_env : TesterEnv
delivering_env = record {
  matching_services = λ log. (success, some 95);
  services = λ iterator. 90 ∷ 91 ∷ [];
  open_service = λ log service. if service == 90 then (success, 96) else (error, 0);
  call_scalar_method = λ connection selector input output s.
      (external_method sample_client_env 3 selector (scalar_arguments input output) none none 0
          >>= λ (ret, a). pure (ret, a.scalar_output, length a.scalar_output))
        s;
}

abbrev failing_env : TesterEnv
failing_env = record delivering_env {
  services = λ iterator. 91 ∷ 90 ∷ [];
  call_scalar_method = λ connection selector input output s. some ((error, output, 0), s);
}

failing-KeepsOutput : KeepsOutput failing_env
failing-KeepsOutput = record { keeps = λ connection selector input output s. refl }

abbrev sample_world : World
sample_world = record { system = sample_system; events = [] }

main-releases_example :
    (code : ℕ) × (t : World) × (main failing_env sample_world ≡ some (code, t))
    × (releases 91 t.events + 0 ≡ fails 91 t.events + 0)
    × (iterators t.events ≡ 0 + 1)
    × (opens t.events + code ≡ 0 + 1)
main-releases_example = main-releases failing_env failing-KeepsOutput 91 sample_world

main-enables_example :
    main delivering_env sample_world
    ≡ some (
      0,
      record {
        system = record sample_system {
          interfaces =
              update sample_system.interfaces 5 (with_enabled ready_input ready_ivars true);
        };
        events =
            printed (output_line 1 1)
            ∷ printed (input_line 1 1)
            ∷ iterator_released (some 95)
            ∷ printed opened_service
            ∷ tried 90 success
            ∷ printed searching
            ∷ [];
      },
    )
main-enables_example =
    main-enables delivering_env sample_client_env 96 3
      (record { delivers = λ selector input output s. refl }) sample-ChecksArguments sample_world
      (some 95) 90 (91 ∷ []) refl refl refl 5 ready_input ready_ivars refl refl refl
