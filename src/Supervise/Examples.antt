-- ===== src/Supervise/Examples.antt =====
-- The theorems on supervision at a task that was spawned once.
use handfast.Base.{true, false, none, some, [], ◌≡◌, refl}
use handfast.Supervise.{after_exit, failed}
use handfast.Supervise.Children.{Supervisor, spawn, start, is_running, superseded-is_running}

abbrev idle : Supervisor
idle = record { shutdown = false; generations = 0; children = []; running = [] }

abbrev one_task : Supervisor
one_task = spawn "mdns" idle

first_delay_test : after_exit failed 0 5 ≡ some (1, 100)
unfolding after_exit
first_delay_test = refl

superseded-is_running_example : is_running 7 (spawn "mdns" (start "mdns" 7 one_task)).running ≡ true
unfolding spawn
superseded-is_running_example =
    superseded-is_running "mdns" 7 one_task (record { generation = 1; latest_child = none }) refl
