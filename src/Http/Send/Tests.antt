-- ===== src/Http/Send/Tests.antt =====
-- Responses sent over concrete sockets.
use nx_lite.Base.{
  zero, suc, ◌<◌, ◌≡◌, refl, ◌≢◌, true, false, none, some, [], ◌∷◌, ◌++◌, length, take, drop, Bytes,
  codes, arith,
}
use nx_lite.Http.Response.{Response, no_compression}
use nx_lite.Http.Send.{
  again, other, wrote, io_error, complete, stuck, Socket, header_block, file_remaining,
  http_send_response,
}
use nx_lite.Http.Send.Complete.{Progresses, send_file-complete}
use nx_lite.Http.Send.Total.{http_send_response_total}

-- It takes all it is given.
abbrev open_socket : Socket
open_socket k n = wrote n other

open_socket-Progresses : Progresses open_socket
open_socket-Progresses k n h = (n, other, refl, h, omega arith)

-- It takes the first call, two bytes of the second, and then would block.
abbrev slow_socket : Socket
slow_socket zero n = wrote n other
slow_socket (suc zero) n = wrote 2 other
slow_socket (suc (suc k)) n = io_error again

abbrev hello : Bytes
hello = codes "hello"

abbrev plain_response : Response
plain_response = record {
  status_code = 200;
  status_text = some (codes "OK");
  headers = record { name = codes "Content-Length"; value = codes "5" } ∷ [];
  keep_alive = false;
  is_file = false;
  is_cached = false;
  file_fd = 0;
  cached_response = none;
  body = some hello;
  body_length = 5;
  file_offset = 0;
  compression_type = no_compression;
  compressed_body = none;
  compressed_length = 0;
  compression_level = 0;
}

abbrev file_response : Response
file_response = record plain_response { is_file = true; file_fd = 7; body = none }

abbrev cached_page : Response
cached_page = record plain_response { is_cached = true; cached_response = some hello; body = none }

abbrev cached_head : Response
cached_head = record cached_page { body_length = 0 }

plain_header :
    header_block plain_response
    ≡ codes "HTTP/1.1 200 OK"
      ++ 13 ∷ 10 ∷ codes "Content-Length: 5"
      ++ 13 ∷ 10 ∷ codes "Connection: close"
      ++ 13 ∷ 10 ∷ 13 ∷ 10 ∷ []
unfolding header_block
plain_header = refl

plain_header_small : length (header_block plain_response) < 8192
unfolding header_block
plain_header_small = omega arith

file_header_small : length (header_block file_response) < 8192
unfolding header_block
file_header_small = omega arith

send_file-complete_example : http_send_response open_socket hello file_response ≡ record {
  code = complete;
  output = header_block file_response ++ take (file_remaining file_response) (drop 0 hello);
  response = file_response;
}
send_file-complete_example =
    send_file-complete open_socket hello file_response other open_socket-Progresses refl refl
      file_header_small refl

http_send_response_total_example : (http_send_response slow_socket hello file_response).code ≢ stuck
http_send_response_total_example = http_send_response_total slow_socket hello file_response
