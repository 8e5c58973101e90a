-- ===== src/Server/Tests.antt =====
-- Runs of the functions of src/server.c.
use nx_lite.Base.{◌≡◌, refl, true, none, some, [], ◌∷◌, codes}
use nx_lite.Config.{atoi, fgets, digits}
use nx_lite.Http.Parse.{skip_whitespace}
use nx_lite.Server.{
  create, watch, close_fd, write, new_worker_server, hello_response, some_bytes, end_of_stream,
  handle_new_connection, dispatch_events, server_run, backlog,
}

-- A connection is accepted, its request is answered, and another client ends its stream.
answers_one :
    server_run
      ((record {
        fd = 3;
        accepted = record { fd = 7; nonblocking = true; watched = true } ∷ [];
        read = end_of_stream;
      }
          ∷ [])
        ∷ (record { fd = 7; accepted = []; read = some_bytes }
            ∷ record { fd = 8; accepted = []; read = end_of_stream }
            ∷ [])
        ∷ [])
      (new_worker_server 3 4)
    ≡ create 7 ∷ watch 7 ∷ write 7 hello_response ∷ close_fd 7 ∷ []
unfolding server_run dispatch_events handle_new_connection
answers_one = refl

cut_backlog : backlog 4096 none (some (codes "128")) ≡ 128
unfolding atoi fgets digits skip_whitespace
cut_backlog = refl
