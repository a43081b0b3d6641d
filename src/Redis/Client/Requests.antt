-- ===== src/Redis/Client/Requests.antt =====
-- The server reads back the requests that the client writes.
use cpp_many_tasks.Prelude.{
  ℕ, ◌<◌, ◌^◌, ◌≡◌, refl, ◌∙◌, true, some, List, [], ◌++◌, arith, length, append_assoc,
}
use cpp_many_tasks.Redis.Types.{redis_error, resp_type_to_char, Exception, ok}
use cpp_many_tasks.Redis.Writer.{Output, write_bulk_string, start_array}
use cpp_many_tasks.Redis.RoundTrip.{
  read_bulk_string-write_bulk_string, read_array_length-start_array,
}
use cpp_many_tasks.Redis.Storage.{same_key}
use cpp_many_tasks.Redis.Server.{
  ECommands, length_fits, make_command, Command, command_get, command_set, command_incr,
  command_decr, commands, read_part, read_parts, read_command, get_name, set_name, incr_name,
  decr_name, get_type, set_type, incr_type, decr_type,
}
use cpp_many_tasks.Redis.Client.{request_get, request_set, request_increment, request_decrement}

-- What the client writes for a command.
abbrev pub request : Command → Output → Output
request (command_get k) out = request_get k out
request (command_set k v) out = request_set k v out
request (command_incr k) out = request_increment k out
request (command_decr k) out = request_decrement k out

-- The arguments are shorter than the largest `int64_t`.
abbrev pub IsSendable : Command → Type 0
IsSendable (command_get k) = length k < 2 ^ 63
IsSendable (command_set k v) = (length k < 2 ^ 63) × (length v < 2 ^ 63)
IsSendable (command_incr k) = length k < 2 ^ 63
IsSendable (command_decr k) = length k < 2 ^ 63

-- A write goes behind what was written.
pub write_bulk_string-append :
    (s out : List ℕ) → write_bulk_string s out ≡ out ++ write_bulk_string s []
unfolding write_bulk_string
write_bulk_string-append s out = simp append_assoc

pub start_array-append : (n : ℕ) (out : List ℕ) → start_array n out ≡ out ++ start_array n []
unfolding start_array
start_array-append n out = simp append_assoc

read_part-write_bulk_string :
    (e : Exception) (s rest : List ℕ)
    → length s < 2 ^ 63
    → read_part e (write_bulk_string s [] ++ rest) ≡ (ok s, rest)
unfolding read_part resp_type_to_char
read_part-write_bulk_string e s rest small =
    let (line, type_read, body_read) = read_bulk_string-write_bulk_string s small rest in
    rw (type_read, body_read)

read_two :
    (n k rest : List ℕ)
    → read_command (write_bulk_string k (write_bulk_string n (start_array 2 [])) ++ rest)
      ≡ read_parts 2 (write_bulk_string n [] ++ (write_bulk_string k [] ++ rest))
unfolding read_command resp_type_to_char
read_two n k rest =
    let (line, type_read, length_read) =
      read_array_length-start_array 2 (omega arith)
        (write_bulk_string n [] ++ (write_bulk_string k [] ++ rest)) in
    rw (
      write_bulk_string-append k (write_bulk_string n (start_array 2 [])),
      write_bulk_string-append n (start_array 2 []),
      append_assoc (start_array 2 [] ++ write_bulk_string n []) (write_bulk_string k []) rest,
      append_assoc (start_array 2 []) (write_bulk_string n []) (write_bulk_string k [] ++ rest),
      type_read,
      length_read,
    )

read_three :
    (n k v rest : List ℕ)
    → read_command
        (write_bulk_string v (write_bulk_string k (write_bulk_string n (start_array 3 []))) ++ rest)
      ≡ read_parts 3
          (write_bulk_string n [] ++ (write_bulk_string k [] ++ (write_bulk_string v [] ++ rest)))
unfolding read_command resp_type_to_char
read_three n k v rest =
    let (line, type_read, length_read) =
      read_array_length-start_array 3 (omega arith)
        (write_bulk_string n [] ++ (write_bulk_string k [] ++ (write_bulk_string v [] ++ rest))) in
    rw (
      write_bulk_string-append v (write_bulk_string k (write_bulk_string n (start_array 3 []))),
      write_bulk_string-append k (write_bulk_string n (start_array 3 [])),
      write_bulk_string-append n (start_array 3 []),
      append_assoc (start_array 3 [] ++ write_bulk_string n [] ++ write_bulk_string k [])
          (write_bulk_string v []) rest,
      append_assoc (start_array 3 [] ++ write_bulk_string n []) (write_bulk_string k [])
          (write_bulk_string v [] ++ rest),
      append_assoc (start_array 3 []) (write_bulk_string n [])
          (write_bulk_string k [] ++ (write_bulk_string v [] ++ rest)),
      type_read,
      length_read,
    )

module _ (n k rest : List ℕ) (type : ECommands) where
  parts_two :
      length n < 2 ^ 63
      → length k < 2 ^ 63
      → commands n ≡ some type
      → length_fits type 2 ≡ true
      → read_parts 2 (write_bulk_string n [] ++ (write_bulk_string k [] ++ rest))
        ≡ (ok (make_command type k []), rest)
  unfolding read_parts
  parts_two hn hk known fits = rw (
    read_part-write_bulk_string (redis_error "Wrong command name") n
        (write_bulk_string k [] ++ rest) hn,
    known,
    fits,
    read_part-write_bulk_string (redis_error "Command null key") k rest hk,
  )

  parts_three :
      (v : List ℕ)
      → length n < 2 ^ 63
      → length k < 2 ^ 63
      → length v < 2 ^ 63
      → commands n ≡ some type
      → length_fits type 3 ≡ true
      → read_parts 3
          (write_bulk_string n [] ++ (write_bulk_string k [] ++ (write_bulk_string v [] ++ rest)))
        ≡ (ok (make_command type k v), rest)
  unfolding read_parts
  parts_three v hn hk hv known fits = rw (
    read_part-write_bulk_string (redis_error "Wrong command name") n
        (write_bulk_string k [] ++ (write_bulk_string v [] ++ rest)) hn,
    known,
    fits,
    read_part-write_bulk_string (redis_error "Command null key") k (write_bulk_string v [] ++ rest)
        hk,
    read_part-write_bulk_string (redis_error "Command null key") v rest hv,
  )

-- The server reads from a request, whose arguments are shorter than 2^63 bytes, the command that the
-- client was asked for, and leaves what follows the request.
pub read_command-request :
    (c : Command) (rest : List ℕ)
    → IsSendable c
    → read_command (request c [] ++ rest) ≡ (ok c, rest)
unfolding commands same_key request_get request_set request_increment request_decrement
read_command-request (command_get k) rest h =
    read_two get_name k rest ∙ parts_two get_name k rest get_type (omega arith) h refl refl
read_command-request (command_set k v) rest (hk, hv) =
    read_three set_name k v rest
    ∙ parts_three set_name k rest set_type v (omega arith) hk hv refl refl
read_command-request (command_incr k) rest h =
    read_two incr_name k rest ∙ parts_two incr_name k rest incr_type (omega arith) h refl refl
read_command-request (command_decr k) rest h =
    read_two decr_name k rest ∙ parts_two decr_name k rest decr_type (omega arith) h refl refl
