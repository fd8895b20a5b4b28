-- ===== src/NumberText.antt =====
-- `yf_sprintf_num` of src/base_struct/yf_string.c: a number in a buffer. Characters are numbers.
pub mod Read
use yifei.Prelude.{
  ℕ, zero, suc, ◌+◌, ◌-◌, ◌/◌, ◌%◌, ◌^◌, List, [], ◌∷◌, ◌++◌, ltb, leb, ◌==◌, if◌then◌else◌, length,
  take,
}

-- `YF_INT64_LEN`
abbrev pub int64_len : ℕ
int64_len = 20

-- `hex` and `HEX`: the characters from `'0'` to `'9'`, then those from a letter on.
unfoldable pub hex_char : (letter digit : ℕ) → ℕ
hex_char letter digit = if ltb digit 10 then digit + 48 else letter + (digit - 10)

-- A digit, by `hexadecimal`.
unfoldable pub digit_char : (hexadecimal digit : ℕ) → ℕ
unfolding hex_char
digit_char hexadecimal digit =
    if hexadecimal == 0
    then digit + 48
    else if hexadecimal == 1
    then hex_char 97 digit
    else hex_char 65 digit

abbrev pub base_of : ℕ → ℕ
base_of hexadecimal = if hexadecimal == 0 then 10 else 16

-- The three `do` loops, which write before what `temp` has already. The fuel is the room of
-- `temp`. A number of 32 bits goes through the same loop as a `yf_u32_t`; the low four bits and the
-- shift by four of the other loops are the remainder and the quotient by 16.
unfoldable pub put_digits : (fuel hexadecimal n : ℕ) → List ℕ → List ℕ
unfolding digit_char
put_digits zero hexadecimal n temp = temp
put_digits (suc fuel) hexadecimal n temp =
    let temp' = digit_char hexadecimal (n % base_of hexadecimal) ∷ temp in
    let rest = put_digits fuel hexadecimal (n / base_of hexadecimal) temp' in
    if n / base_of hexadecimal == 0 then temp' else rest

-- The padding of `n` characters, as far as there is room.
unfoldable pub pad : (zero_char n room : ℕ) → List ℕ
pad zero_char zero room = []
pad zero_char (suc n) zero = []
pad zero_char (suc n) (suc room) = zero_char ∷ pad zero_char n room

-- The padding and the copy of the digits, for `last - buf` of `room`.
unfoldable pub padded_copy : (room zero_char width : ℕ) → List ℕ → List ℕ
unfolding pad
padded_copy room zero_char width temp =
    let padding = pad zero_char (width - length temp) room in
    let left = room - length padding in
    padding ++ take (if ltb left (length temp) then left else length temp) temp

-- `yf_sprintf_num`: the characters that it writes.
unfoldable pub sprintf_num : (room ui64 zero_char hexadecimal width : ℕ) → List ℕ
unfolding put_digits padded_copy
sprintf_num room ui64 zero_char hexadecimal width =
    padded_copy room zero_char width (put_digits int64_len hexadecimal ui64 [])
