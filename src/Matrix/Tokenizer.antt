-- ===== src/Matrix/Tokenizer.antt =====
-- matrix-3.0/tokenizer.h: `Tokenizer`. The stream is the list of the characters that are left.
pub mod Lines
mod Tests
use cpp_many_tasks.Prelude.{
  ℕ, zero, suc, ◌+◌, ◌-◌, ◌*◌, ◌^◌, ◌%◌, Bool, true, false, ◌||◌, ◌&&◌, Option, none, some, List,
  [], ◌∷◌, ◌++◌, leb, ◌==◌, if◌then◌else◌,
}
use cpp_many_tasks.Redis.Storage.{same_key}

-- `Token` with its `TokenType`, and the member that the type gives a meaning.
pub data Token : Type 0 where
  number : ℕ → Token
  symbol : ℕ → Token
  var : List ℕ → Token
  for_token eqv tab bad_token new_line end_token : Token

abbrev is_digit : ℕ → Bool
is_digit c = leb b'0' c && leb c b'9'

abbrev is_letter : ℕ → Bool
is_letter c = (leb b'A' c && leb c b'Z') || (leb b'a' c && leb c b'z')

-- `kOperations`.
abbrev is_operation : ℕ → Bool
is_operation c = c == b'(' || c == b')' || c == b'+' || c == b'-' || c == b'*'

-- The digits behind those that make `n`; a `uint64_t` wraps.
unfoldable pub read_number : ℕ → List ℕ → ℕ × List ℕ
read_number n [] = (n, [])
read_number n (c ∷ l) =
    let rest = read_number ((n * 10 + (c - b'0')) % 2 ^ 64) l in
    if is_digit c then rest else (n, c ∷ l)

-- The characters of a name behind `found`.
unfoldable pub read_name : List ℕ → List ℕ → List ℕ × List ℕ
read_name found [] = (found, [])
read_name found (c ∷ l) =
    let rest = read_name (found ++ c ∷ []) l in
    if is_letter c || c == b'_' || is_digit c then rest else (found, c ∷ l)

abbrev number_token : ℕ × List ℕ → Token × List ℕ
number_token (n, rest) = (number n, rest)

abbrev name_token : List ℕ × List ℕ → Token × List ℕ
name_token (s, rest) = (if same_key s (b'f' ∷ b'o' ∷ b'r' ∷ []) then for_token else var s, rest)

-- `Consume` where the next character is `c`, no space.
unfoldable pub consume_at : ℕ → List ℕ → Token × List ℕ
consume_at c l =
    if c == 10
    then (new_line, l)
    else if is_operation c
    then (symbol c, l)
    else if c == b'='
    then (eqv, l)
    else if is_digit c
    then number_token (read_number (c - b'0') l)
    else if is_letter c
    then name_token (read_name (c ∷ []) l)
    else (bad_token, l)

-- `Consume`, having skipped `spaces` spaces: the fourth makes a tab, fewer are left out.
unfoldable pub consume : ℕ → List ℕ → Token × List ℕ
consume spaces [] = (end_token, [])
consume spaces (c ∷ l) =
    let rest = consume (suc spaces) l in
    if c == b' ' then (if suc spaces == 4 then (tab, l) else rest) else consume_at c l

abbrev pub is_tab : Token → Bool
is_tab tab = true
is_tab t = false

-- Whether a tab is kept: at the beginning of a line, or behind another tab.
unfoldable pub may_indent : List Token → Bool
may_indent [] = true
may_indent (t ∷ []) = is_tab t
may_indent (t ∷ u ∷ l) = may_indent (u ∷ l)

abbrev pub is_new_line : Token → Bool
is_new_line new_line = true
is_new_line t = false

unfoldable pub ends_in_new_line : List Token → Bool
ends_in_new_line [] = false
ends_in_new_line (t ∷ []) = is_new_line t
ends_in_new_line (t ∷ u ∷ l) = ends_in_new_line (u ∷ l)

abbrev pub Program : Type 0
Program = List (List Token)

-- A round of the loop of `Tokenize`: the line that is being read, and the lines before it.
unfoldable pub add_token : Token → List Token → Program → List Token × Program
add_token new_line [] program = ([], program)
add_token new_line (t ∷ line) program = ([], program ++ (t ∷ line ++ new_line ∷ []) ∷ [])
add_token tab line program = (if may_indent line then line ++ tab ∷ [] else line, program)
add_token t line program = (line ++ t ∷ [], program)

-- The end of `Tokenize`.
unfoldable pub finish : List Token → Program → Program
finish [] program = program
finish (t ∷ line) program =
    program ++ (if ends_in_new_line (t ∷ line) then t ∷ line else t ∷ line ++ new_line ∷ []) ∷ []

abbrev pub after_token :
    (List ℕ → List Token → Program → Option Program)
    → Token × List ℕ
    → List Token
    → Program
    → Option Program
after_token again (end_token, rest) line program = some (finish line program)
after_token again (t, rest) line program =
    let (line', program') = add_token t line program in again rest line' program'

-- The loop of `Tokenize`; `none` if the fuel runs out.
unfoldable pub tokenize_loop : ℕ → List ℕ → List Token → Program → Option Program
tokenize_loop zero input line program = none
tokenize_loop (suc fuel) input line program =
    after_token (λ rest line' program'. tokenize_loop fuel rest line' program') (consume 0 input)
      line program

unfoldable pub tokenize : ℕ → List ℕ → Option Program
unfolding tokenize_loop
tokenize fuel input = tokenize_loop fuel input [] []
