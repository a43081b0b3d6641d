-- ===== src/Redis/Tests.antt =====
-- redis: runs on small inputs, and each theorem at an input that meets its conditions.
use cpp_many_tasks.Prelude.{
  ℕ, ◌<◌, ◌^◌, ◌≡◌, refl, ap, Option, none, some, List, [], ◌∷◌, ◌++◌, arith, length, if◌then◌else◌,
}
use cpp_many_tasks.Prelude.Int.{pos, negsuc, ◌+ℤ◌}
use cpp_many_tasks.Std.Decimal.{to_string, to_string_nat}
use cpp_many_tasks.Redis.Types.{out_of_range, ok, err, bulk_string}
use cpp_many_tasks.Redis.Reader.{read_bulk_string}
use cpp_many_tasks.Redis.Writer.{write_bulk_string, write_array_ints}
use cpp_many_tasks.Redis.RoundTrip.{IsMessage, read_bulk_string-write_bulk_string}
use cpp_many_tasks.Redis.Storage.{Storage, int_value, same_key, find, get, set_key, change, int_max}
use cpp_many_tasks.Redis.Storage.Laws.{canonical, get-set_key, change_adds, change_overflows}
use cpp_many_tasks.Redis.Server.{
  command_get, command_set, command_incr, read_command, process_command, serve,
}
use cpp_many_tasks.Redis.Server.Progress.{serve_total}
use cpp_many_tasks.Redis.Client.{receive_get}
use cpp_many_tasks.Redis.Client.Requests.{request, read_command-request}
use cpp_many_tasks.Redis.Client.Session.{requests, run, serve-requests, receive_get-process_command}

abbrev key : List ℕ
key = b'k' ∷ []

abbrev seven : List ℕ
seven = b'0' ∷ b'0' ∷ b'7' ∷ []

abbrev word : List ℕ
word = b'a' ∷ 13 ∷ 10 ∷ []

abbrev counter : Storage
counter = (key, int_value (pos 41)) ∷ []

abbrev full : Storage
full = (key, int_value int_max) ∷ []

ints_written :
    write_array_ints (pos 3 ∷ negsuc 4 ∷ []) []
    ≡ b'*' ∷ b'2' ∷ 13 ∷ 10 ∷ b':' ∷ b'3' ∷ 13 ∷ 10 ∷ b':' ∷ b'-' ∷ b'5' ∷ 13 ∷ 10 ∷ []
unfolding write_array_ints to_string to_string_nat
ints_written = refl

serve-requests_example :
    serve 3 (requests (command_incr key ∷ command_get key ∷ [])) counter []
    ≡ some (run (command_incr key ∷ command_get key ∷ []) counter [])
serve-requests_example =
    serve-requests (command_incr key ∷ command_get key ∷ []) 3 counter [] (omega arith)
      (omega arith)

read_command-request_example :
    read_command (request (command_set key word) [] ++ seven) ≡ (ok (command_set key word), seven)
read_command-request_example = read_command-request (command_set key word) seven (omega arith)

serve_total_example : (r : Storage × List ℕ) × (serve 4 word counter [] ≡ some r)
serve_total_example = serve_total 4 word counter [] (omega arith)

change_adds_example :
    ((change key (pos 1) counter).0 ≡ ok (pos 41 +ℤ pos 1))
    × (find seven (change key (pos 1) counter).1
        ≡ (if same_key key seven then some (int_value (pos 41 +ℤ pos 1)) else find seven counter))
unfolding find same_key ◌+ℤ◌
change_adds_example =
    change_adds key seven (pos 1) (pos 41) counter refl (omega arith) (omega arith) (omega arith)

change_overflows_example : change key (pos 1) full ≡ (err out_of_range, full)
unfolding find same_key ◌+ℤ◌
change_overflows_example =
    change_overflows key (pos 1) int_max full refl (omega arith) (omega arith) (omega arith)

get-set_key_example :
    get key (set_key key seven counter)
    ≡ (if same_key key key then some (canonical seven) else get key counter)
get-set_key_example = get-set_key key key seven counter

read_bulk_string_example :
    IsMessage bulk_string read_bulk_string (some word) (write_bulk_string word []) seven
read_bulk_string_example = read_bulk_string-write_bulk_string word (omega arith) seven

short_value : (s : List ℕ) → get key counter ≡ some s → length s < 2 ^ 63
unfolding get find same_key to_string to_string_nat
short_value s e = omega (arith, ap (λ o. length (or_empty o)) e)
  where
    or_empty : Option (List ℕ) → List ℕ
    or_empty none = []
    or_empty (some l) = l

receive_get_example :
    receive_get ((process_command (command_get key) counter []).2 ++ word)
    ≡ (ok (get key counter), word)
receive_get_example = receive_get-process_command key word counter short_value
