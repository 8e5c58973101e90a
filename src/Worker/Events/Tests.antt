-- ===== src/Worker/Events/Tests.antt =====
-- The event loop on a worker with one client.
use nx_lite.Base.{◌+◌, ◌≢◌, true, false, none, some, [], ◌∷◌, arith, codes}
use nx_lite.Mempool.{Pool}
use nx_lite.RateLimit.Entries.{zero_table}
use nx_lite.Http.Send.{wrote, other}
use nx_lite.Http.Serve.{Library}
use nx_lite.Worker.{zero_client, Worker}
use nx_lite.Worker.Data.{would_block}
use nx_lite.Worker.Events.{too_many, short, accept_loop, Answers}
use nx_lite.Worker.Events.Accepting.{accept_loop_total}

abbrev small_pool : Pool
small_pool = record {
  block_size = 8192;
  blocks_per_pool = 2;
  free_list = none;
  memory_blocks = 4096 ∷ [];
  total_blocks = 2;
  used_blocks = 1;
  local_free_list = some 0;
  local_free_count = 1;
  next = λ i. none;
  address = λ i. 4096 + i;
}

abbrev one_client : Worker
one_client = record {
  keep_alive_timeout = 30;
  clients =
      record zero_client { fd = 5; timer_fd = 6; last_activity = 100; buffer = some 4097 } ∷ [];
  buffer_pool = small_pool;
  rate_limits = zero_table;
  calls = [];
}

abbrev no_library : Library
no_library = record {
  open_file = λ p. none;
  stat = λ p. none;
  fstat = λ p. none;
  pread = λ n p size. none;
  memory = λ n. false;
  zlib_init = λ n. false;
  compress = λ type level text room. none;
  format_time = λ t. [];
  parse_time = λ s. none;
  time = 500;
}

abbrev answers : Answers
answers = record {
  now = 500;
  development_mode = false;
  accepts = λ k. too_many;
  system = record {
    realpath = λ p. none;
    config = record { root_dir = codes "./static"; keep_alive_timeout = 30 };
    library = λ n. no_library;
    socket = λ n k size. wrote size other;
    file = λ n. [];
    epoll_set = λ n. true;
    timer_set = λ n. true;
  };
  incoming = λ k n. would_block;
  socket = λ k size. wrote size other;
  file = [];
  epoll_set = true;
}

accept_loop_total_example : accept_loop 4002 answers.accepts false 500 0 0 one_client ≢ short
accept_loop_total_example =
    accept_loop_total 4002 0 0 answers.accepts false 500 one_client (omega arith)
