-- ===== src/Matrix/Tokenizer/Tests.antt =====
-- matrix-3.0/tokenizer.h: a small program, with a line that is empty.
use cpp_many_tasks.Prelude.{ℕ, ◌≡◌, refl, some, List, [], ◌∷◌}
use cpp_many_tasks.Redis.Storage.{same_key}
use cpp_many_tasks.Matrix.Tokenizer.{
  number, symbol, var, eqv, new_line, read_number, read_name, consume_at, consume, ends_in_new_line,
  add_token, finish, tokenize_loop, tokenize,
}

abbrev text : List ℕ
text = 10 ∷ b'a' ∷ b' ' ∷ b'=' ∷ b'4' ∷ b'2' ∷ b'+' ∷ b'b' ∷ b'1' ∷ []

text_tokens :
    tokenize 10 text
    ≡ some (
        (var (b'a' ∷ []) ∷ eqv ∷ number 42 ∷ symbol b'+' ∷ var (b'b' ∷ b'1' ∷ []) ∷ new_line ∷ [])
        ∷ [])
unfolding tokenize tokenize_loop consume consume_at read_number read_name add_token finish
    ends_in_new_line same_key
text_tokens = refl
