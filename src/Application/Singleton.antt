-- ===== src/Application/Singleton.antt =====
-- src/application.cpp: the application that the process shares, and the functions that use it. It is `none`
-- until the first call, which `std::call_once` makes construct it.
use beauty_cl.Prelude.{ℤ, Bool, true, false, Option, none, some}
use beauty_cl.Application.{Application, new_application, is_started, start, run, stop}

unfoldable pub instance_of_process : Option Application → Application
instance_of_process none = new_application true false
instance_of_process (some a) = a

-- The certificates are those of the first call only.
unfoldable pub instance_with_certificates : Option Application → Application
instance_with_certificates none = new_application true true
instance_with_certificates (some a) = a

unfoldable pub start_instance : ℤ → Option Application → Option Application
start_instance concurrency global = some (start concurrency (instance_of_process global))

unfoldable pub run_instance : Option Application → Option Application
run_instance global = some (run (instance_of_process global))

-- The default of `reset` is true.
unfoldable pub stop_instance : Option Application → Option Application
stop_instance global = some (stop true (instance_of_process global))

unfoldable pub is_started_instance : Option Application → Bool × Option Application
is_started_instance global =
    (is_started (instance_of_process global), some (instance_of_process global))
