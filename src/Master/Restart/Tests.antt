-- ===== src/Master/Restart/Tests.antt =====
-- A worker of src/master.c that is started, and started again, in a slot behind the CPUs.
use nx_lite.Base.{◌≡◌, refl, true, none, some, [], ◌∷◌, ltb}
use nx_lite.Config.{pos}
use nx_lite.Worker.Start.{Startup, refused, worker_init}
use nx_lite.Master.Child.{Cpus, set_worker_cpu_affinity, forked_child, restarted_child}
use nx_lite.Master.Restart.{restarted_child-refused}

abbrev four_cpus : Cpus
four_cpus = record { online = pos 4; affinity = λ c. ltb c 4 }

abbrev all_answers : Startup
all_answers = record {
  handlers = true ∷ true ∷ true ∷ [];
  affinity = true;
  thread = record { list = none; count = 0; next = λ p. none; address = λ p. 0 };
  mutex = true;
  memory = record { blocks = some 4096; headers = true; array = true };
  epoll_fd = some 5;
  nonblocking = true;
  epoll = true;
  arrays = λ a. true;
}

sixth_slot_cpu : set_worker_cpu_affinity four_cpus 5 (pos 4) ≡ some 1
unfolding set_worker_cpu_affinity
sixth_slot_cpu = refl

restarted_child-refused_example :
    (forked_child four_cpus all_answers 3 5
      ≡ worker_init (record all_answers { affinity = true }) 3)
    × (restarted_child four_cpus all_answers 3 5 ≡ refused [] [] [])
restarted_child-refused_example =
    restarted_child-refused four_cpus all_answers 3 3 5 refl (λ c. refl)
