-- ===== src/Config/Boolean.antt =====
-- The two regular expressions for booleans of src/config/common.c and `regexec` on the first one.
-- In "^yes|Yes|...|1|0$" the anchors bind only the outermost alternatives, so each other word
-- matches anywhere in the text.
use rapp.Prelude.{
  Bool, false, ◌||◌, List, [], ◌∷◌, Memory, memory_create, memory_destroy, Text, codes, starts_with,
  str_eq,
}

-- Does `word` occur in the text?
unfoldable contains : Text → Text → Bool
unfolding starts_with
contains word [] = starts_with word []
contains word (c ∷ cs) = starts_with word (c ∷ cs) || contains word cs

unfoldable ends_with : Text → Text → Bool
unfolding str_eq
ends_with word [] = str_eq word []
ends_with word (c ∷ cs) = str_eq word (c ∷ cs) || ends_with word cs

unfoldable contains_any : List Text → Text → Bool
unfolding contains
contains_any [] t = false
contains_any (w ∷ ws) t = contains w t || contains_any ws t

-- The alternatives between the first and the last of `regex_bool_str`.
abbrev inner_words : List Text
inner_words =
    codes "Yes"
    ∷ codes "YES"
    ∷ codes "no"
    ∷ codes "No"
    ∷ codes "NO"
    ∷ codes "true"
    ∷ codes "True"
    ∷ codes "TRUE"
    ∷ codes "false"
    ∷ codes "False"
    ∷ codes "FALSE"
    ∷ codes "on"
    ∷ codes "On"
    ∷ codes "ON"
    ∷ codes "off"
    ∷ codes "Off"
    ∷ codes "OFF"
    ∷ codes "1"
    ∷ []

-- `regexec(&regex_bool, value, 0, NULL, 0) == 0` for `regex_bool_str`.
unfoldable pub regex_bool_matches : Text → Bool
unfolding contains_any ends_with starts_with
regex_bool_matches value =
    starts_with (codes "yes") value || contains_any inner_words value || ends_with (codes "0") value

-- `regcomp` of a correct expression fails only for lack of memory; a compiled one holds a block.
unfoldable pub regcomp : Memory → Bool × Memory
unfolding memory_create
regcomp m = memory_create m

unfoldable pub regfree : Memory → Memory
unfolding memory_destroy
regfree m = memory_destroy m
