-- ===== src/Config/Api/Read.antt =====
-- The readers of src/config/api.c.
use rapp.Prelude.{
  ℕ, not, ◌&&◌, ◌==◌, Option, none, some, if◌then◌else◌, ℤ, pos, negsuc, is_zero, leb, get_elem?,
  Text, Memory, memory_strdup,
}
use rapp.Config.{Value, int_value, str_value, null_string, ConfigOption, RappConfig}
use rapp.Config.Values.{is_string}
use rapp.Config.Store.{get_option}

-- What a reader returns: 0 with the value, -1, or the 1 of GET_OPTION. `undefined` is a read to
-- which C gives no meaning: through `NULL`, or of the union's other member.
pub data Reply {ℓ} (A : Type ℓ) : Type ℓ where
  found : A → Reply A
  failed unknown undefined : Reply A

abbrev pub as_int : Option Value → Reply ℤ
as_int (some (int_value n)) = found n
as_int (some (str_value t)) = undefined
as_int (some null_string) = undefined
as_int none = undefined

-- The string that `memory_strdup` is called with.
abbrev as_string : Option Value → Reply Text
as_string (some (int_value n)) = undefined
as_string (some (str_value t)) = found t
as_string (some null_string) = undefined
as_string none = undefined

-- The part that the two readers share, behind the test of the type: which value is meant.
abbrev pub nth_value {ℓ} : {A : Type ℓ} → (Option Value → Reply A) → ConfigOption → ℕ → Reply A
nth_value read opt position =
    if is_zero opt.multivalued && not (position == 0)
    then failed
    else if opt.num_values == 0 && opt.default_set
    then (if position == 0 then read (some opt.default_value) else failed)
    else if leb opt.num_values position
    then failed
    else read (get_elem? opt.values position)

abbrev read_int : Option ConfigOption → ℕ → Reply ℤ
read_int none position = unknown
read_int (some opt) position = if is_string opt.type then failed else nth_value as_int opt position

abbrev read_string : Option ConfigOption → ℕ → Reply Text
read_string none position = unknown
read_string (some opt) position =
    if is_string opt.type then nth_value as_string opt position else failed

unfoldable pub rapp_config_get_nth_int : RappConfig → Text → Text → ℤ → Reply ℤ
unfolding get_option
rapp_config_get_nth_int conf section name (negsuc n) = failed
rapp_config_get_nth_int conf section name (pos n) = read_int (get_option conf section name) n

-- The cast of the `int` pointer to a `long` pointer is not modelled.
unfoldable rapp_config_get_nth_bool : RappConfig → Text → Text → ℤ → Reply ℤ
unfolding rapp_config_get_nth_int
rapp_config_get_nth_bool conf section name position =
    rapp_config_get_nth_int conf section name position

-- `found none` is a return of 0 with `*value` null.
abbrev copied : Reply Text → Memory → Reply (Option Text) × Memory
copied (found t) m = let (got, m') = memory_strdup m in (found (if got then some t else none), m')
copied failed m = (failed, m)
copied unknown m = (unknown, m)
copied undefined m = (undefined, m)

unfoldable rapp_config_get_nth_string :
    RappConfig → Text → Text → ℤ → Memory → Reply (Option Text) × Memory
unfolding get_option memory_strdup
rapp_config_get_nth_string conf section name (negsuc n) m = (failed, m)
rapp_config_get_nth_string conf section name (pos n) m =
    copied (read_string (get_option conf section name) n) m

abbrev count_of : Option ConfigOption → Reply ℕ
count_of none = unknown
count_of (some opt) = found opt.num_values

unfoldable pub rapp_config_get_num_values : RappConfig → Text → Text → Reply ℕ
unfolding get_option
rapp_config_get_num_values conf section name = count_of (get_option conf section name)
