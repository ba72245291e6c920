-- ===== src/Worker/Runner/Examples.antt =====
-- A runner over counted processes, under a supervisor, and the theorems on its children there.
use rs_llmctl.Base.{ℕ, suc, ◌+◌, ◌≡◌, refl, true, false, none, some, [], ◌∷◌, if◌then◌else◌, ◌==◌}
use rs_llmctl.Base.Map
use rs_llmctl.Worker.Launch as Launch
use rs_llmctl.Worker.Launch.{
  cpu, WorkerSpec, is_in_process, llama_server_subprocess, candle_native, from_backend,
  in_process_placeholder,
}
use rs_llmctl.Worker.Supervisor.{new, ok, PlannedWorker, start, failed}
use rs_llmctl.Worker.Runner.{
  Processes, running, exited, TokioWorkerRunner, spawn, poll_exited, tokio_runner, decimal,
}
use rs_llmctl.Worker.Supervisor.Outcomes.{Changed}
use rs_llmctl.Worker.Runner.Supervised.{start-in_process}

-- The outside counts the processes that were spawned, and every request is answered. A child is its
-- number, and the first child exits at once.
abbrev counted : Processes ℕ ℕ
counted = record {
  spawn = λ os command. (suc os, ok os);
  id = λ child. some (child + 100);
  kill = λ os child. (os, ok tt);
  drop = λ os child. os;
  try_wait = λ os child. (os, child, if child == 0 then exited else running);
  get_succeeds = λ os url. (os, true);
  sleep = λ os. os;
}

abbrev no_children : TokioWorkerRunner ℕ ℕ
no_children = record { os = 0; children = [] }

abbrev spec : WorkerSpec
spec = record {
  id = "coder";
  model = record {
    alias = "coder";
    path = "coder.gguf";
    role = "coding";
    family = none;
    weight = 1;
  };
  bind_host = "127.0.0.1";
  port = 9001;
  context_size = 4096;
  backend = cpu;
}

abbrev coder : PlannedWorker Launch.PlannedWorker
coder = record {
  id = "coder";
  plan = record {
    worker = spec;
    launch = llama_server_subprocess "/usr/bin/llama-server";
    execution = from_backend cpu;
    command = in_process_placeholder spec;
  };
}

port_text : decimal 4 9001 ≡ "9001"
port_text = refl

spawned_once :
    spawn counted no_children coder ≡ (record { os = 1; children = ("coder", 0) ∷ [] }, ok 100)
unfolding spawn Map.get Map.insert Map.remove
spawned_once = refl

abbrev two_children : TokioWorkerRunner ℕ ℕ
two_children = record { os = 2; children = ("chat", 1) ∷ ("coder", 0) ∷ [] }

coder_exited : (poll_exited counted two_children).1 ≡ "coder" ∷ []
unfolding poll_exited Map.get Map.insert Map.remove
coder_exited = refl

-- the same worker, planned in the process
abbrev in_process_coder : PlannedWorker Launch.PlannedWorker
in_process_coder = record {
  id = "coder";
  plan = record {
    worker = spec;
    launch = candle_native;
    execution = from_backend cpu;
    command = in_process_placeholder spec;
  };
}

start-in_process_example :
    Changed "coder" failed false
      (new no_children)
      (start (tokio_runner counted) in_process_coder (new no_children)).0
    × ((start (tokio_runner counted) in_process_coder (new no_children)).0.runner
        ≡ (new no_children).runner)
start-in_process_example = start-in_process counted (new no_children) in_process_coder refl
