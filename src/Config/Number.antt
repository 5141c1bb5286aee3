-- ===== src/Config/Number.antt =====
-- `strtol(value, &endptr, 10)` of the C library, as `config_add_value_from_string` uses it.
use rapp.Prelude.{
  ℕ, ◌+◌, ◌-◌, ◌*◌, ◌^◌, Bool, true, false, ◌&&◌, ◌||◌, [], ◌∷◌, ltb, leb, ◌==◌, if◌then◌else◌, ℤ,
  pos, negsuc, Text, is_digit,
}
use rapp.Config.{long_max, long_min}

-- The value, whether errno is ERANGE, and what stands behind `endptr`.
pub record Parsed : Type 0 where
  pub value : ℤ
  pub out_of_range : Bool
  pub rest : Text

abbrev pub parsed : ℤ → Bool → Text → Parsed
parsed v r t = record { value = v; out_of_range = r; rest = t }

-- `isspace` of the C locale.
abbrev is_space : ℕ → Bool
is_space c = (leb 9 c && leb c 13) || c == 32

unfoldable pub skip_space : Text → Text
skip_space [] = []
skip_space (c ∷ cs) = if is_space c then skip_space cs else c ∷ cs

-- The digits read so far stand for `acc`.
unfoldable pub scan_digits : ℕ → Text → ℕ × Text
scan_digits acc [] = (acc, [])
scan_digits acc (c ∷ cs) =
    let rest = scan_digits (10 * acc + (c - b'0')) cs in if is_digit c then rest else (acc, c ∷ cs)

abbrev pub to_long : Bool → ℕ → Text → Parsed
to_long true n rest =
    if ltb (2 ^ 63) n
    then parsed long_min true rest
    else parsed (if n == 0 then pos 0 else negsuc (n - 1)) false rest
to_long false n rest =
    if ltb (2 ^ 63 - 1) n then parsed long_max true rest else parsed (pos n) false rest

-- After the sign; with no digit at all nothing is consumed.
unfoldable pub read_digits : Bool → Text → Text → Parsed
unfolding scan_digits
read_digits minus all [] = parsed (pos 0) false all
read_digits minus all (c ∷ cs) =
    if is_digit c
    then (let (n, rest) = scan_digits 0 (c ∷ cs) in to_long minus n rest)
    else parsed (pos 0) false all

unfoldable pub read_sign : Text → Text → Parsed
unfolding read_digits
read_sign all [] = parsed (pos 0) false all
read_sign all (c ∷ cs) =
    if c == b'-'
    then read_digits true all cs
    else if c == b'+'
    then read_digits false all cs
    else read_digits false all (c ∷ cs)

unfoldable pub strtol : Text → Parsed
unfolding read_sign skip_space
strtol t = read_sign t (skip_space t)
