-- ===== src/Redis/Writer.antt =====
-- redis/resp-writer: `RespWriter` over the bytes written to its connection so far. A write takes
-- what was written and returns it with the message behind it.
use cpp_many_tasks.Prelude.{ℕ, List, [], ◌∷◌, ◌++◌, length}
use cpp_many_tasks.Prelude.Int.{ℤ}
use cpp_many_tasks.Std.Decimal.{to_string_nat, to_string}
use cpp_many_tasks.Redis.Types.{
  ERespType, simple_string, int, error, bulk_string, array, resp_type_to_char,
}

abbrev pub Output : Type 0
Output = List ℕ

-- `writer_->Write`.
unfoldable pub write : List ℕ → Output → Output
write bytes out = out ++ bytes

abbrev pub end_string : List ℕ
end_string = 13 ∷ 10 ∷ []

unfoldable pub finish_message_field : Output → Output
unfolding write
finish_message_field out = write end_string out

unfoldable pub write_type : ERespType → Output → Output
unfolding write resp_type_to_char
write_type t out = write (resp_type_to_char t ∷ []) out

unfoldable pub write_simple_string : List ℕ → Output → Output
unfolding write_type finish_message_field
write_simple_string s out = finish_message_field (write s (write_type simple_string out))

unfoldable pub write_error : List ℕ → Output → Output
unfolding write_type finish_message_field
write_error s out = finish_message_field (write s (write_type error out))

unfoldable pub write_int : ℤ → Output → Output
unfolding write_type finish_message_field
write_int n out = finish_message_field (write (to_string n) (write_type int out))

unfoldable pub write_bulk_string : List ℕ → Output → Output
unfolding write_type finish_message_field
write_bulk_string s out =
    let header =
      finish_message_field (write (to_string_nat (length s)) (write_type bulk_string out)) in
    finish_message_field (write s header)

unfoldable pub write_null_bulk_string : Output → Output
unfolding write_type finish_message_field
write_null_bulk_string out =
    finish_message_field (write (b'-' ∷ b'1' ∷ []) (write_type bulk_string out))

unfoldable pub start_array : ℕ → Output → Output
unfolding write_type finish_message_field
start_array size out = finish_message_field (write (to_string_nat size) (write_type array out))

unfoldable pub write_null_array : Output → Output
unfolding write_type finish_message_field
write_null_array out = finish_message_field (write (b'-' ∷ b'1' ∷ []) (write_type array out))

unfoldable pub write_ints : List ℤ → Output → Output
unfolding write_int
write_ints [] out = out
write_ints (n ∷ ns) out = write_ints ns (write_int n out)

unfoldable pub write_array_ints : List ℤ → Output → Output
unfolding start_array write_ints
write_array_ints ns out = write_ints ns (start_array (length ns) out)
